-- ===== src/Swap/Rounds.antt =====
-- The loops of swap/ethereum/listener.go and swap/bitcoin/listener.go.
use dex_server.Prelude.{ℕ, zero, suc, ◌-◌, ◌^◌, ltb, if◌then◌else◌}
use dex_server.Prelude.Int.{ℤ, pos, negsuc}

-- `int64(n)` of a `uint64`.
abbrev pub to_int64 : ℕ → ℤ
to_int64 n = if ltb n (2 ^ 63) then pos n else negsuc (2 ^ 64 - n - 1)

-- How a round of the loop ends: with the number of the next block, or with the loop.
pub data Round : Type 0 where
  going : ℕ → Round
  stopped panicked : Round

abbrev pub carry_on : {D : Type 0} → (ℕ → D → Round × D) → Round × D → Round × D
carry_on k (going n, d) = k n d
carry_on k (stopped, d) = (stopped, d)
carry_on k (panicked, d) = (panicked, d)

-- So many rounds of a loop, from the number of a block on.
unfoldable pub iterate : {D : Type 0} → (ℕ → D → Round × D) → ℕ → ℕ → D → Round × D
iterate round zero n d = (going n, d)
iterate round (suc rounds) n d = carry_on (iterate round rounds) (round n d)
