-- ===== src/Tests/Amounts.antt =====
-- A run of the theorem on amounts of coins.
use Prim.Native.String.{String}
use text.Mathlib.Text.{◌==◌ as str_eq}
use dex_server.Prelude.{◌^◌, Option, none, some, ◌≡◌, refl, ◌⊎◌, if◌then◌else◌}
use dex_server.Prelude.Int.{ℤ, pos}
use dex_server.Domain.Errors.{ok, err, invalid_precision}
use dex_server.Swap.Amounts.{Rational, eth_to_wei}
use dex_server.Swap.Amounts.Exact.{IsTimes, eth_to_wei_cases}

abbrev half : Rational
half = record { numerator = pos 1; denominator = 2 }

abbrev read_half : String → Option Rational
read_half s = if str_eq s "0.5" then some half else none

eth_to_wei_cases_example :
    ((z : ℤ) × (eth_to_wei read_half "0.5" ≡ ok z) × IsTimes (10 ^ 18) half z)
    ⊎ ((eth_to_wei read_half "0.5" ≡ err invalid_precision)
        × ((z : ℤ) → ¬ IsTimes (10 ^ 18) half z))
eth_to_wei_cases_example = eth_to_wei_cases read_half "0.5" refl
