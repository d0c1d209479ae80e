-- ===== src/Services/Validator/Checks.antt =====
-- services/validator.go: the comparisons that end `ValidateAvailableBalance` and `ValidateBalance`.
use dex_server.Prelude.{◌≡◌, ◌↔◌, arith}
use dex_server.Prelude.Int.{ℤ, ◌≤ℤ◌}
use dex_server.Numbers.{sub, is_strictly_smaller_than, is_strictly_smaller_than-cases}
use dex_server.Domain.Errors.{
  Result, ok, fail_if, insufficient_balance, insufficient_available, insufficient_allowance,
  insufficient_allowance_available, ◌>>◌,
}

-- The checks at the end of `ValidateAvailableBalance`, on the balance, the allowance, what is
-- locked and what is needed. `x.Cmp(y) == -1` is the test of `is_strictly_smaller_than`.
unfoldable pub check_available : ℤ → ℤ → ℤ → ℤ → Result (Unit {0})
check_available balance allowance locked needed = do
  fail_if (is_strictly_smaller_than balance needed) insufficient_balance
  fail_if (is_strictly_smaller_than (sub balance locked) needed) insufficient_available
  fail_if (is_strictly_smaller_than allowance needed) insufficient_allowance
  fail_if (is_strictly_smaller_than (sub allowance locked) needed) insufficient_allowance_available

-- The checks at the end of `ValidateBalance`.
unfoldable pub check_balance : ℤ → ℤ → ℤ → Result (Unit {0})
check_balance balance allowance needed = do
  fail_if (is_strictly_smaller_than balance needed) insufficient_balance
  fail_if (is_strictly_smaller_than allowance needed) insufficient_allowance

-- The four comparisons pass exactly if what is needed is at most the balance, at most the
-- allowance, and at most either of them less what is locked.
pub check_available_iff :
    (balance allowance locked needed : ℤ)
    → (check_available balance allowance locked needed ≡ ok tt) ↔ (
        (needed ≤ℤ balance)
        × (needed ≤ℤ sub balance locked)
        × (needed ≤ℤ allowance)
        × (needed ≤ℤ sub allowance locked))
unfolding check_available
check_available_iff balance allowance locked needed =
    let c₁ = is_strictly_smaller_than-cases balance needed in
    let c₂ = is_strictly_smaller_than-cases (sub balance locked) needed in
    let c₃ = is_strictly_smaller_than-cases allowance needed in
    let c₄ = is_strictly_smaller_than-cases (sub allowance locked) needed in
    (λ h. ground (arith, c₁, c₂, c₃, c₄), λ h. ground (arith, c₁, c₂, c₃, c₄))
