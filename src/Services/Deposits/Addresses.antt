-- ===== src/Services/Deposits/Addresses.antt =====
-- services/deposit.go with daos/config.go: the index that a request for a deposit address gets.
use Prim.Native.String.{String}
use dex_server.Prelude.{ℕ, ◌+◌, ◌%◌, ◌^◌, ◌<◌, [], ◌∷◌, Option, some, ◌≡◌, refl, arith, inl, inr}
use dex_server.Prelude.Int.{pos}
use dex_server.Domain.Errors.{Result, ok, err, Result-cases}
use dex_server.Domain.Deposit.{Chain, number}
use dex_server.Backend.{Backend}
use dex_server.Daos.Config.{
  get_address_index_key, has_key, increment, as_uint64, to_uint64, get_value_from_key,
  get_uint64_value_from_key, get_address_index, increment_address_index,
}
use dex_server.Services.Deposits.{Outside, generate, generate_address}

-- The counter under a key, which is a number: a query finds it, and `$inc` adds one to it.
pub record CounterLaws {D : Type 0} (b : Backend D) (key : String) (counter : D → Option ℕ)
    : Type 0 where
  pub reading :
      (n : ℕ) (d : D)
      → counter d ≡ some n
      → (d' : D) × (b.config.get (has_key key) 1 d
          ≡ (ok (record { key = key; value = number (pos n) } ∷ []), d'))
        × (counter d' ≡ some n)
  pub adding :
      (n : ℕ) (d : D)
      → counter d ≡ some n
      → (d' : D) × (b.config.update (has_key key) increment d ≡ (ok tt, d'))
        × (counter d' ≡ some (n + 1))

module _ {D : Type 0} (b : Backend D) (parse_uint : String → Result ℕ) (c : Chain) (key : String)
    (named : get_address_index_key c ≡ ok key) (counter : D → Option ℕ)
    (l : CounterLaws b key counter) where
  get_address_index-reads :
      (n : ℕ) (d : D)
      → n < 2 ^ 64
      → counter d ≡ some n
      → (d' : D) × (get_address_index b parse_uint c d ≡ (ok n, d')) × (counter d' ≡ some n)
  unfolding get_address_index get_uint64_value_from_key get_value_from_key as_uint64 to_uint64
  get_address_index-reads n d h k =
      let (d', e, k') = l.reading n d k in
      let fits : n % 2 ^ 64 ≡ n = omega arith in (d', rw (named, e, fits) refl, k')

  increment_address_index-adds :
      (n : ℕ) (d : D)
      → counter d ≡ some n
      → (d' : D) × (increment_address_index b parse_uint c d ≡ (ok tt, d'))
        × (counter d' ≡ some (n + 1))
  unfolding increment_address_index
  increment_address_index-adds n d k =
      let (d', e, k') = l.adding n d k in (d', rw (named, e) refl, k')

module _ {D : Type 0} (b : Backend D) (x : Outside D) (c : Chain) (key : String)
    (named : get_address_index_key c ≡ ok key) (counter : D → Option ℕ)
    (l : CounterLaws b key counter) where
  -- Let the counter of a chain be a number that a query reads and an update adds one to. A request
  -- for an address, where the counter stands at `n` and `n + 1` is less than 2 ^ 64, leaves it at
  -- `n + 1`, and returns this index with the address of the child of the master key at it, taken
  -- modulo 2 ^ 32, or the error of its derivation.
  pub generate_address_lem :
      (child : ℕ → Result ℕ) (n : ℕ) (d : D)
      → x.child_address ≡ some child
      → n + 1 < 2 ^ 64
      → counter d ≡ some n
      → (d' : D) × (generate_address b x c d
          ≡ (elim (child ((n + 1) % 2 ^ 32)) [ ok a ↦ ok (a, n + 1) | err e ↦ err e ], d'))
        × (counter d' ≡ some (n + 1))
  unfolding generate_address generate
  generate_address_lem child n d g h k =
      let (d₁, e₁, k₁) = increment_address_index-adds b x.parse_uint c key named counter l n d k in
      let (d₂, e₂, k₂) =
        get_address_index-reads b x.parse_uint c key named counter l (n + 1) d₁ h k₁ in
      elim (Result-cases (child ((n + 1) % 2 ^ 32))) [
        | inl (a, e) ↦ (d₂, rw (e₁, e₂, g, e) refl, k₂)
        | inr (x, e) ↦ (d₂, rw (e₁, e₂, g, e) refl, k₂)
      ]
