-- ===== src/Daos/Orders/Depth/Amounts.antt =====
-- daos/order.go: the amounts of the order book by price.
use mathlib.Core.List.{Permᴰ}
use dex_server.Prelude.{
  true, false, Bool-cases, List, [], ◌∷◌, ◌≡◌, refl, ap, ◌∙◌, inl, inr, if◌then◌else◌,
}
use dex_server.Prelude.Int.{ℤ, pos, int_laws}
use dex_server.Numbers.{add, sub, is_equal, is_equal-eq}
use dex_server.Domain.Order.{Order}
use dex_server.Daos.Orders.Depth.{add_level, levels}

-- The amount that the levels give for a price, and what is left of the orders of the price.
abbrev pub depth_at : ℤ → List (ℤ × ℤ) → ℤ
depth_at q [] = pos 0
depth_at q ((p, a) ∷ ls) = if is_equal p q then add a (depth_at q ls) else depth_at q ls

abbrev pub left_at : ℤ → List Order → ℤ
left_at q [] = pos 0
left_at q (o ∷ os) =
    if is_equal o.pricepoint q
    then add (sub o.amount o.filled_amount) (left_at q os)
    else left_at q os

add_assoc : (x y z : ℤ) → add (add x y) z ≡ add x (add y z)
unfolding add
add_assoc x y z = grind int_laws

add_comm : (x y z : ℤ) → add x (add y z) ≡ add y (add x z)
unfolding add
add_comm x y z = grind int_laws

-- The order of the orders does not matter.
left_at-cons :
    (q : ℤ) (o : Order) (xs ys : List Order)
    → left_at q xs ≡ left_at q ys
    → left_at q (o ∷ xs) ≡ left_at q (o ∷ ys)
left_at-cons q o xs ys h = rw h refl

left_at-swap :
    (q : ℤ) (o p : Order) (os : List Order) → left_at q (o ∷ p ∷ os) ≡ left_at q (p ∷ o ∷ os)
left_at-swap q o p os = elim (Bool-cases (is_equal o.pricepoint q)) [
  | inl e ↦ elim (Bool-cases (is_equal p.pricepoint q)) [
    | inl f ↦
        rw (e, f)
          (add_comm (sub o.amount o.filled_amount) (sub p.amount p.filled_amount) (left_at q os))
    | inr f ↦ rw (e, f) refl
  ]
  | inr e ↦ rw e refl
]

pub left_at-Permᴰ : (q : ℤ) {xs ys : List Order} → Permᴰ xs ys → left_at q xs ≡ left_at q ys
left_at-Permᴰ q Permᴰ.nil = refl
left_at-Permᴰ q (Permᴰ.cons {a} {b} {l₁} {l₂} e d) =
    ap (λ o. left_at q (o ∷ l₁)) e ∙ left_at-cons q b l₁ l₂ (left_at-Permᴰ q d)
left_at-Permᴰ q (Permᴰ.swap {a} {b} {a'} {b'} {l} e f) =
    left_at-swap q a b l ∙ ap (λ o. left_at q (o ∷ a ∷ l)) f ∙ ap (λ o. left_at q (a' ∷ o ∷ l)) e
left_at-Permᴰ q (Permᴰ.trans d e) = left_at-Permᴰ q d ∙ left_at-Permᴰ q e

depth_at-add_level :
    (q price amount : ℤ) (ls : List (ℤ × ℤ))
    → depth_at q (add_level price amount ls)
      ≡ (if is_equal price q then add amount (depth_at q ls) else depth_at q ls)
unfolding add_level is_equal
depth_at-add_level q price amount [] = refl
depth_at-add_level q price amount ((p, a) ∷ ls) = elim (Bool-cases (is_equal price p)) [
  | inl e ↦
      let same = is_equal-eq price p e in
      elim (Bool-cases (is_equal p q)) [
        | inl f ↦ let g : is_equal price q ≡ true = rw same f in rw (e, f, g) (add_assoc amount a _)
        | inr f ↦ let g : is_equal price q ≡ false = rw same f in rw (e, f, g) refl
      ]
  | inr e ↦ rw e refl
]

pub depth_at-levels : (q : ℤ) (os : List Order) → depth_at q (levels os) ≡ left_at q os
unfolding levels
depth_at-levels q [] = refl
depth_at-levels q (o ∷ os) =
    let ih = depth_at-levels q os in
    depth_at-add_level q o.pricepoint (sub o.amount o.filled_amount) (levels os) ∙ rw ih refl
