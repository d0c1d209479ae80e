-- ===== src/Services/Candles.antt =====
-- services/ohlcv.go: the trades that the candles of a pair are made of.
use native.Mathlib.Nat.{
  mul-zero, mul-suc, mod-lt, mod-le, div-add-mod, mul-mod_right, mod-eq-sub-mod,
}
use dex_server.Prelude.{
  sym, ap, ◌∙◌, zero, ℕ, suc, ◌+◌, ◌-◌, ◌*◌, ◌%◌, ◌/◌, ◌≤◌, ◌<◌, ◌≡◌, refl, Bool, true, false, ◌&&◌,
  ◌||◌, ◌==◌, leb, if◌then◌else◌, List, [], ◌∷◌, arith,
}
use dex_server.Prelude.Int.{ℤ, pos, sub_ℕ}
use dex_server.Numbers.{is_strictly_smaller_than, is_equal_or_smaller_than}
use dex_server.Domain.Errors.{Result, ok, err, runtime_panic}
use dex_server.Domain.Trade.{Trade, TradeStatus, success}

-- The texts of a unit.
pub data TimeUnit : Type 0 where
  sec min hour day week month year other : TimeUnit

-- The days from `time.Date(y, 0, 0, …)`, which is 30 November of the year before, to the first of
-- January after the year.
abbrev pub days_counted : Bool → ℕ
days_counted leap = (if leap then 366 else 365) + 32

-- The length of a candle, in a year that is a leap year or not. A month is counted by the day of
-- the month of its first day, which is 1.
unfoldable pub interval_in_seconds : Bool → ℕ → TimeUnit → ℕ
interval_in_seconds leap interval sec = interval
interval_in_seconds leap interval min = interval * 60
interval_in_seconds leap interval hour = interval * 60 * 60
interval_in_seconds leap interval day = interval * 24 * 60 * 60
interval_in_seconds leap interval week = interval * 7 * 24 * 60 * 60
interval_in_seconds leap interval month = interval * 1 * 24 * 60 * 60
interval_in_seconds leap interval year = interval * days_counted leap * 24 * 60 * 60
interval_in_seconds leap interval other = 0

-- `getModTime`, for times of less than 2 ^ 53 seconds, which a float64 has exactly, and a positive
-- interval.
unfoldable pub get_mod_time : Bool → ℕ → ℕ → TimeUnit → ℕ × ℕ
unfolding interval_in_seconds
get_mod_time leap ts interval other = (0, 0)
get_mod_time leap ts interval unit =
    let seconds = interval_in_seconds leap interval unit in (ts - ts % seconds, seconds)

-- The start and the end of the time that `GetOHLCV` asks for: the given ones, or else from the
-- candle before the current one until now. One alone is an index out of range.
unfoldable pub window : Bool → ℕ → ℕ → TimeUnit → List ℤ → Result (ℤ × ℤ)
unfolding get_mod_time
window leap now interval unit [] =
    let (mod_time, seconds) = get_mod_time leap now interval unit in
    ok (sub_ℕ mod_time seconds, pos now)
window leap now interval unit (from ∷ []) = err runtime_panic
window leap now interval unit (from ∷ to ∷ more) = ok (from, to)

abbrev pub is_success : TradeStatus → Bool
is_success success = true
is_success _ = false

abbrev pub of_pairs : List (ℕ × ℕ) → Trade → Bool
of_pairs [] t = false
of_pairs ((base, quote) ∷ ps) t = (t.base_token == base && t.quote_token == quote) || of_pairs ps t

-- `getMatchQuery`: with no pair, the trades of all of them.
unfoldable pub get_match_query : ℤ → ℤ → List (ℕ × ℕ) → Trade → Bool
get_match_query start end [] t =
    is_equal_or_smaller_than start (pos t.created_at)
    && (is_strictly_smaller_than (pos t.created_at) end && is_success t.status)
get_match_query start end (p ∷ ps) t =
    is_equal_or_smaller_than start (pos t.created_at)
    && (is_strictly_smaller_than (pos t.created_at) end
        && (is_success t.status && of_pairs (p ∷ ps) t))

at_least_one : (n q r ts : ℕ) → n * q + r ≡ ts → r < n → n ≤ ts → n ≤ n * q
at_least_one n zero r ts e h k = absurd (omega (arith, mul-zero n))
at_least_one n (suc q) r ts e h k = omega (arith, mul-suc n q)

-- The last multiple up to a time.
mod_lem :
    (ts n : ℕ)
    → 0 < n
    → ((ts - ts % n) % n ≡ 0)
      × (ts - ts % n ≤ ts)
      × (ts < ts - ts % n + n)
      × (n ≤ ts → n ≤ ts - ts % n)
mod_lem ts n h =
    let below = mod-lt ts h in
    let whole : ts - ts % n ≡ n * (ts / n) = omega (arith, div-add-mod ts n) in
    (
      ap (λ x. x % n) whole ∙ mul-mod_right n (ts / n),
      omega arith,
      omega (arith, below, mod-le ts n),
      λ k. rw whole (at_least_one n (ts / n) (ts % n) ts (div-add-mod ts n) below k),
    )

-- The time of an interval whose length is not 0.
get_mod_time_lem :
    (leap : Bool) (ts interval : ℕ) (unit : TimeUnit)
    → 0 < interval_in_seconds leap interval unit
    → let seconds = interval_in_seconds leap interval unit in
      get_mod_time leap ts interval unit ≡ (ts - ts % seconds, seconds)
unfolding get_mod_time interval_in_seconds
get_mod_time_lem leap ts interval sec h = refl
get_mod_time_lem leap ts interval min h = refl
get_mod_time_lem leap ts interval hour h = refl
get_mod_time_lem leap ts interval day h = refl
get_mod_time_lem leap ts interval week h = refl
get_mod_time_lem leap ts interval month h = refl
get_mod_time_lem leap ts interval year h = refl
get_mod_time_lem leap ts interval other h = absurd (omega arith)

-- Let the length of a candle be positive and at least one candle have passed since 1970. With no
-- times given, the trades are asked for from a multiple of the length until now, and this is at
-- least one length and less than two.
window_lem :
    (leap : Bool) (now interval : ℕ) (unit : TimeUnit)
    → let seconds = interval_in_seconds leap interval unit in
      0 < seconds
      → seconds ≤ now
      → (start : ℕ) × (window leap now interval unit [] ≡ ok (pos start, pos now))
        × (start % seconds ≡ 0)
        × (start + seconds ≤ now)
        × (now < start + 2 * seconds)
unfolding window
window_lem leap now interval unit h k =
    let seconds = interval_in_seconds leap interval unit in
    let (multiple, below, above, far) = mod_lem now seconds h in
    (
      now - now % seconds - seconds,
      rw (get_mod_time_lem leap now interval unit h, leb_true seconds (now - now % seconds) (far k))
          refl,
      sym (mod-eq-sub-mod (far k)) ∙ multiple,
      omega (arith, far k, below),
      omega (arith, far k, above),
    )
  where
    leb_true : (a b : ℕ) → a ≤ b → leb a b ≡ true
    leb_true a b h = ground arith
