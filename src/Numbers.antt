-- ===== src/Numbers.antt =====
-- utils/math/big.go: the arithmetic and the comparisons on `*big.Int`.
use dex_server.Prelude.{
  ℕ, zero, suc, ◌+◌, ◌-◌, ◌*◌, ◌/◌, ◌^◌, ◌≤◌, ◌≡◌, ◌↔◌, refl, Bool, true, false, ◌||◌, arith, ltb,
  ◌⊎◌, ◌≢◌, if◌then◌else◌,
}
use dex_server.Prelude.Int.{
  ℤ, pos, negsuc, pos_part, neg_part, ◌+ℤ◌, ◌-ℤ◌, ◌*ℤ◌, ◌≤ℤ◌, ◌<ℤ◌, eq_of_parts,
}

-- The result of Go's `x.Cmp(y)`: -1, 0 or 1.
pub data Sign : Type 0 where
  minus nought plus : Sign

abbrev pub cmp : ℤ → ℤ → Sign
cmp x y =
    if ltb (pos_part x + neg_part y) (pos_part y + neg_part x)
    then minus
    else if ltb (pos_part y + neg_part x) (pos_part x + neg_part y)
    then plus
    else nought

abbrev pub is : Sign → Sign → Bool
is minus minus = true
is nought nought = true
is plus plus = true
is _ _ = false

unfoldable pub add : ℤ → ℤ → ℤ
unfolding ◌+ℤ◌
add x y = x +ℤ y

unfoldable pub sub : ℤ → ℤ → ℤ
unfolding ◌-ℤ◌
sub x y = x -ℤ y

unfoldable pub mul : ℤ → ℤ → ℤ
unfolding ◌*ℤ◌
mul x y = x *ℤ y

abbrev negated : ℕ → ℤ
negated zero = pos 0
negated (suc n) = negsuc n

-- `big.Int.Div` is Euclidean: the remainder is never negative. The code divides by multipliers
-- that are powers of ten; the library panics on a zero divisor, where this is 0.
unfoldable pub div : ℤ → ℤ → ℤ
div (pos n) (pos d) = pos (n / d)
div (pos n) (negsuc d) = negated (n / suc d)
div (negsuc n) (pos d) = negated ((n + d) / d)
div (negsuc n) (negsuc d) = pos ((n + 1 + d) / suc d)

-- `big.Int.Exp` with no modulus: 1 where the exponent is not positive.
unfoldable pub exp : ℕ → ℤ → ℤ
exp b (pos n) = pos (b ^ n)
exp b (negsuc n) = pos 1

unfoldable pub max : ℤ → ℤ → ℤ
max a b = if is (cmp a b) plus then a else b

unfoldable pub is_zero : ℤ → Bool
is_zero x = is (cmp x (pos 0)) nought

unfoldable pub is_equal : ℤ → ℤ → Bool
is_equal x y = is (cmp x y) nought

-- As written in the source, the test with "greater" also passes on equal numbers.
unfoldable pub is_greater_than : ℤ → ℤ → Bool
is_greater_than x y = is (cmp x y) plus || is (cmp x y) nought

unfoldable pub is_strictly_greater_than : ℤ → ℤ → Bool
is_strictly_greater_than x y = is (cmp x y) plus

unfoldable pub is_smaller_than : ℤ → ℤ → Bool
is_smaller_than x y = is (cmp x y) minus || is (cmp x y) nought

unfoldable pub is_strictly_smaller_than : ℤ → ℤ → Bool
is_strictly_smaller_than x y = is (cmp x y) minus

unfoldable pub is_equal_or_greater_than : ℤ → ℤ → Bool
unfolding is_equal is_greater_than
is_equal_or_greater_than x y = is_equal x y || is_greater_than x y

unfoldable pub is_equal_or_smaller_than : ℤ → ℤ → Bool
unfolding is_equal is_smaller_than
is_equal_or_smaller_than x y = is_equal x y || is_smaller_than x y

-- Each test with what it decides, for a case split that hands over the order.
pub is_strictly_greater_than-cases :
    (x y : ℤ)
    → ((is_strictly_greater_than x y ≡ true) × (y <ℤ x))
      ⊎ ((is_strictly_greater_than x y ≡ false) × (x ≤ℤ y))
unfolding is_strictly_greater_than
is_strictly_greater_than-cases x y = ground arith

pub is_zero-cases :
    (x : ℤ) → ((is_zero x ≡ true) × (x ≡ pos 0)) ⊎ ((is_zero x ≡ false) × (x ≢ pos 0))
unfolding is_zero
is_zero-cases x = ground arith

pub is_equal-eq : (x y : ℤ) → is_equal x y ≡ true → x ≡ y
unfolding is_equal
is_equal-eq x y h = ground arith

pub is_equal_or_smaller_than-cases :
    (x y : ℤ)
    → ((is_equal_or_smaller_than x y ≡ true) × (x ≤ℤ y))
      ⊎ ((is_equal_or_smaller_than x y ≡ false) × (y <ℤ x))
unfolding is_equal_or_smaller_than
is_equal_or_smaller_than-cases x y = ground arith

pub is_equal_or_greater_than-cases :
    (x y : ℤ)
    → ((is_equal_or_greater_than x y ≡ true) × (y ≤ℤ x))
      ⊎ ((is_equal_or_greater_than x y ≡ false) × (x <ℤ y))
unfolding is_equal_or_greater_than
is_equal_or_greater_than-cases x y = ground arith

pub is_smaller_than-cases :
    (x y : ℤ)
    → ((is_smaller_than x y ≡ true) × (x ≤ℤ y)) ⊎ ((is_smaller_than x y ≡ false) × (y <ℤ x))
unfolding is_smaller_than
is_smaller_than-cases x y = ground arith

pub is_strictly_smaller_than-cases :
    (x y : ℤ)
    → ((is_strictly_smaller_than x y ≡ true) × (x <ℤ y))
      ⊎ ((is_strictly_smaller_than x y ≡ false) × (y ≤ℤ x))
unfolding is_strictly_smaller_than
is_strictly_smaller_than-cases x y = ground arith

pub add_parts :
    (a b : ℤ)
    → pos_part (add a b) + neg_part a + neg_part b ≡ neg_part (add a b) + pos_part a + pos_part b
unfolding add
add_parts a b = ground arith

pub sub_parts :
    (a b : ℤ)
    → pos_part (sub a b) + neg_part a + pos_part b ≡ neg_part (sub a b) + pos_part a + neg_part b
unfolding sub
sub_parts a b = ground arith

pub max_lem : (a b : ℤ) → (a ≤ℤ max a b) × (b ≤ℤ max a b) × ((max a b ≡ a) ⊎ (max a b ≡ b))
unfolding max
max_lem a b = ground arith

pub ruleset numbers = (arith, add_parts, sub_parts, eq_of_parts)
