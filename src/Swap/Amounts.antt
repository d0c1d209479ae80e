-- ===== src/Swap/Amounts.antt =====
-- swap/ethereum/main.go, swap/bitcoin/main.go and swap/bitcoin/transaction.go: amounts of coins as
-- numbers of their smallest units. Rational numbers are those of math/big.
pub mod Exact
use Prim.Native.String.{String}
use dex_server.Prelude.{
  ℕ, zero, suc, ◌+◌, ◌*◌, ◌/◌, ◌%◌, ◌^◌, ◌==◌, if◌then◌else◌, Option, none, some,
}
use dex_server.Prelude.Int.{ℤ, pos, negsuc}
use dex_server.Numbers.{mul}
use dex_server.Domain.Errors.{Result, ok, err, not_a_number, invalid_precision, runtime_panic}
use dex_server.Backend.Monad.{Action}
use dex_server.Codec.{Texts}
use dex_server.Swap.Bitcoin.{Payment}

-- A numerator over a positive denominator.
pub record Rational : Type 0 where
  pub numerator : ℤ
  pub denominator : ℕ

abbrev pub magnitude : ℤ → ℕ
magnitude (pos n) = n
magnitude (negsuc n) = suc n

-- The number of the magnitude with the sign of the first one.
abbrev pub signed : ℤ → ℕ → ℤ
signed (pos n) m = pos m
signed (negsuc n) zero = pos 0
signed (negsuc n) (suc m) = negsuc m

-- `Num`, where `Denom` is 1.
abbrev pub whole : Rational → Result ℤ
whole r =
    if magnitude r.numerator % r.denominator == 0
    then ok (signed r.numerator (magnitude r.numerator / r.denominator))
    else err invalid_precision

abbrev pub times : ℕ → Rational → Rational
times k r = record r { numerator = signed r.numerator (magnitude r.numerator * k) }

abbrev pub in_units : ℕ → Option Rational → Result ℤ
in_units k none = err not_a_number
in_units k (some r) = whole (times k r)

-- `EthToWei`; `read_rational` is `SetString` of math/big.
unfoldable pub eth_to_wei : (String → Option Rational) → String → Result ℤ
eth_to_wei read_rational s = in_units (10 ^ 18) (read_rational s)

abbrev pub cast : (ℤ → ℤ) → Result ℤ → Result ℤ
cast int64 (ok z) = ok (int64 z)
cast int64 (err e) = err e

-- `BtcToSat`; `int64` is `Int64` of math/big, which is not defined outside of its range.
unfoldable pub btc_to_sat : (String → Option Rational) → (ℤ → ℤ) → String → Result ℤ
btc_to_sat read_rational int64 s = cast int64 (in_units (10 ^ 8) (read_rational s))

-- The integer that is nearest to a fraction, the larger one of two.
unfoldable pub rounded : ℕ → ℕ → ℕ
rounded n d = (2 * n + d) / (2 * d)

-- So many Satoshi over an exchange rate, in Wei.
abbrev pub exchanged : Texts → ℤ → Option Rational → Result String
unfolding rounded
exchanged t value none = ok ""
exchanged t value (some rate) =
    if magnitude rate.numerator == 0
    then err runtime_panic
    else ok (
        t.print_int (
          signed (mul value rate.numerator)
            (rounded (magnitude value * rate.denominator * 10 ^ 10) (magnitude rate.numerator))))

abbrev pub priced :
    {D : Type 0} → Texts → (String → Option Rational) → ℤ → Result String × D → Result String × D
priced t read_rational value (err e, d) = (ok "", d)
priced t read_rational value (ok price, d) = (exchanged t value (read_rational price), d)

-- `ValueToWei` of a payment of Bitcoin, with the last price of an ether in Bitcoin.
unfoldable pub value_to_wei :
    {D : Type 0}
    → Texts
    → (String → Option Rational)
    → (String → String → Action D String)
    → Payment
    → Action D String
unfolding mul rounded
value_to_wei t read_rational last_price p d =
    priced t read_rational p.value_sat (last_price "ETH" "BTC" d)
