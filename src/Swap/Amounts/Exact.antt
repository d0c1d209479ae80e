-- ===== src/Swap/Amounts/Exact.antt =====
-- swap/ethereum/main.go, swap/bitcoin/transaction.go: what the conversions of amounts compute.
use Prim.Native.String.{String}
use native.Mathlib.Nat.{mul-mod_left, dvd_of_mod-eq-zero, div-mul_cancel, zero-div}
use dex_server.Prelude.{
  ℕ, zero, suc, ◌*◌, ◌/◌, ◌%◌, ◌^◌, ◌==◌, ==_iff, Bool-cases, Option, some, ◌≡◌, refl, ◌⊎◌, inl,
  inr,
}
use dex_server.Prelude.Int.{ℤ, pos, negsuc}
use dex_server.Domain.Errors.{ok, err, invalid_precision}
use dex_server.Swap.Amounts.{Rational, magnitude, signed, in_units, eth_to_wei}

-- The integer is so many times the rational number.
abbrev pub IsTimes : ℕ → Rational → ℤ → Type 0
IsTimes k r z =
    (magnitude z * r.denominator ≡ magnitude r.numerator * k)
    × (z ≡ signed r.numerator (magnitude z))

magnitude-signed : (x : ℤ) (m : ℕ) → magnitude (signed x m) ≡ m
magnitude-signed (pos n) m = refl
magnitude-signed (negsuc n) zero = refl
magnitude-signed (negsuc n) (suc m) = refl

signed-signed : (x : ℤ) (m d : ℕ) → signed (signed x m) (m / d) ≡ signed x (m / d)
signed-signed (pos n) m d = refl
signed-signed (negsuc n) zero d = rw (zero-div d) refl
signed-signed (negsuc n) (suc m) d = refl

in_units_cases :
    (k : ℕ) (r : Rational)
    → ((z : ℤ) × (in_units k (some r) ≡ ok z) × IsTimes k r z)
      ⊎ ((in_units k (some r) ≡ err invalid_precision) × ((z : ℤ) → ¬ IsTimes k r z))
in_units_cases k r =
    let m = magnitude r.numerator * k in
    let size = magnitude-signed r.numerator m in
    elim (Bool-cases (m % r.denominator == 0)) [
      | inl e ↦
          let z = (==_iff (m % r.denominator) 0).0 e in
          let same = magnitude-signed r.numerator (m / r.denominator) in
          inl (
            signed r.numerator (m / r.denominator),
            rw (size, e, signed-signed r.numerator m r.denominator) refl,
            (
              rw same (div-mul_cancel r.denominator (dvd_of_mod-eq-zero r.denominator z)),
              rw same refl,
            ),
          )
      | inr e ↦ inr (
        rw (size, e) refl,
        λ z h.
            let divides : m % r.denominator ≡ 0 =
              rw (← h.0) (mul-mod_left (magnitude z) r.denominator) in
            let f = (==_iff (m % r.denominator) 0).1 divides in cc,
      )
    ]

-- Where a text is read as a rational number, `EthToWei` gives the integer that is 10 ^ 18 times
-- this number, or there is no such integer and it is the error for the precision.
pub eth_to_wei_cases :
    (read_rational : String → Option Rational) (s : String) {r : Rational}
    → read_rational s ≡ some r
    → ((z : ℤ) × (eth_to_wei read_rational s ≡ ok z) × IsTimes (10 ^ 18) r z)
      ⊎ ((eth_to_wei read_rational s ≡ err invalid_precision) × ((z : ℤ) → ¬ IsTimes (10 ^ 18) r z))
unfolding eth_to_wei
eth_to_wei_cases read_rational s {r} h = rw h (in_units_cases (10 ^ 18) r)
