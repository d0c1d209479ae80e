-- ===== src/Backend/Laws.antt =====
-- What the code relies on its services for: the documented behaviour of MongoDB's queries and
-- single-document updates, and that publishing a message leaves the collections alone. `docs` names
-- the documents of a collection in a state of the world.
use mathlib.Core.List.{Permᴰ}
use dex_server.Prelude.{
  ℕ, Bool, true, ◌≡◌, subst, sym, Bool-cases, ◌⊎◌, inl, inr, List, [], ◌∷◌, All, if◌then◌else◌,
}
use dex_server.Domain.Errors.{Error, ok, err}
use dex_server.Domain.Order.{Order}
use dex_server.Backend.{Collection, Backend, Message}

module _ {A : Type 0} where
  abbrev pub Contained : A → List A → Type 0
  Contained x [] = ⊥
  Contained x (y ∷ ys) = (x ≡ y) ⊎ Contained x ys

  -- The documents that a query matches.
  abbrev pub select : (A → Bool) → List A → List A
  select q [] = []
  select q (x ∷ xs) = if q x then x ∷ select q xs else select q xs

  abbrev pub Sorted : (A → A → Bool) → List A → Type 0
  Sorted before [] = Unit
  Sorted before (x ∷ xs) = All (λ y. before x y ≡ true) xs × Sorted before xs

  abbrev pub change_first : (A → Bool) → (A → A) → List A → List A
  change_first q f [] = []
  change_first q f (x ∷ xs) = if q x then f x ∷ xs else x ∷ change_first q f xs

  abbrev pub change_all : (A → Bool) → (A → A) → List A → List A
  change_all q f [] = []
  change_all q f (x ∷ xs) = (if q x then f x else x) ∷ change_all q f xs

  abbrev pub upsert : (A → Bool) → (A → A) → A → List A → List A
  upsert q f new [] = new ∷ []
  upsert q f new (x ∷ xs) = if q x then f x ∷ xs else x ∷ upsert q f new xs

  -- A sort key compares any two documents, and consistently.
  pub record IsOrder (before : A → A → Bool) : Type 0 where
    pub total : (x y : A) → (before x y ≡ true) ⊎ (before y x ≡ true)
    pub trans : (x y z : A) → before x y ≡ true → before y z ≡ true → before x z ≡ true

pub record CollectionLaws {A D : Type 0} (c : Collection A D) (docs : D → List A) : Type 0 where
  -- A query finds documents that match, and with no limit all of them; it changes none. An
  -- aggregation finds each of them once, in the order that it sorts by.
  pub get_sound :
      (q : A → Bool) (n : ℕ) (d : D) {r : List A} {d' : D}
      → c.get q n d ≡ (ok r, d')
      → All (λ x. Contained x (docs d) × (q x ≡ true)) r
  pub get_complete :
      (q : A → Bool) (d : D) {r : List A} {d' : D}
      → c.get q 0 d ≡ (ok r, d')
      → All (λ x. q x ≡ true → Contained x r) (docs d)
  pub get_keeps : (q : A → Bool) (n : ℕ) (d : D) → docs (c.get q n d).1 ≡ docs d
  pub aggregate_sound :
      (q : A → Bool) (before : A → A → Bool) (d : D) {r : List A} {d' : D}
      → c.aggregate q before d ≡ (ok r, d')
      → All (λ x. Contained x (docs d) × (q x ≡ true)) r
  pub aggregate_complete :
      (q : A → Bool) (before : A → A → Bool) (d : D) {r : List A} {d' : D}
      → c.aggregate q before d ≡ (ok r, d')
      → All (λ x. q x ≡ true → Contained x r) (docs d)
  pub aggregate_perm :
      (q : A → Bool) (before : A → A → Bool) (d : D) {r : List A} {d' : D}
      → c.aggregate q before d ≡ (ok r, d')
      → Permᴰ r (select q (docs d))
  pub aggregate_sorted :
      (q : A → Bool) (before : A → A → Bool) (d : D) {r : List A} {d' : D}
      → IsOrder before
      → c.aggregate q before d ≡ (ok r, d')
      → Sorted before r
  pub aggregate_keeps :
      (q : A → Bool) (before : A → A → Bool) (d : D) → docs (c.aggregate q before d).1 ≡ docs d
  -- An update that succeeds makes its change, and one that fails makes none.
  pub update_ok :
      (q : A → Bool) (f : A → A) (d : D) {u : Unit {0}}
      → (c.update q f d).0 ≡ ok u
      → docs (c.update q f d).1 ≡ change_first q f (docs d)
  pub update_err :
      (q : A → Bool) (f : A → A) (d : D) {e : Error}
      → (c.update q f d).0 ≡ err e
      → docs (c.update q f d).1 ≡ docs d
  pub update_all_ok :
      (q : A → Bool) (f : A → A) (d : D) {u : Unit {0}}
      → (c.update_all q f d).0 ≡ ok u
      → docs (c.update_all q f d).1 ≡ change_all q f (docs d)
  pub find_and_modify_ok :
      (q : A → Bool) (f : A → A) (new : A) (d : D) {x : A}
      → (c.find_and_modify q f new d).0 ≡ ok x
      → docs (c.find_and_modify q f new d).1 ≡ upsert q f new (docs d)
  pub find_and_modify_err :
      (q : A → Bool) (f : A → A) (new : A) (d : D) {e : Error}
      → (c.find_and_modify q f new d).0 ≡ err e
      → docs (c.find_and_modify q f new d).1 ≡ docs d

-- What a query finds matches it.
abbrev pub IsSelective : {A D : Type 0} → Collection A D → Type 0
IsSelective {A} {D} c =
    (q : A → Bool) (n : ℕ) (d d' : D) (r : List A)
    → c.get q n d ≡ (ok r, d')
    → All (λ x. q x ≡ true) r

-- The laws of the orders collection, and that the queue does not touch it.
pub record OrderLaws {D : Type 0} (b : Backend D) (docs : D → List Order) : Type 0 where
  pub collection : CollectionLaws b.orders docs
  pub publish_keeps : (m : Message) (d : D) → docs (b.publish m d).1 ≡ docs d

-- Facts about the changes of a collection.
module _ {A : Type 0} where
  pub All-contained : (P : A → Type 0) {x : A} (xs : List A) → All P xs → Contained x xs → P x
  All-contained P [] h c = absurd c
  All-contained P (y ∷ ys) h (inl e) = subst P (sym e) h.0
  All-contained P (y ∷ ys) h (inr c) = All-contained P ys h.1 c

  pub All-map : (P Q : A → Type 0) (xs : List A) → ((x : A) → P x → Q x) → All P xs → All Q xs
  All-map P Q [] f h = tt
  All-map P Q (x ∷ xs) f h = (f x h.0, All-map P Q xs f h.1)

  pub All-upsert :
      (P : A → Type 0) (q : A → Bool) (f : A → A) (new : A) (xs : List A)
      → ((x : A) → q x ≡ true → P x → P (f x))
      → P new
      → All P xs
      → All P (upsert q f new xs)
  All-upsert P q f new [] step n h = (n, tt)
  All-upsert P q f new (x ∷ xs) step n h = elim (Bool-cases (q x)) [
    | inl e ↦ rw e (step x e h.0, h.1)
    | inr e ↦ rw e (h.0, All-upsert P q f new xs step n h.1)
  ]

  pub All-change_first :
      (P : A → Type 0) (q : A → Bool) (f : A → A) (xs : List A)
      → ((x : A) → q x ≡ true → P x → P (f x))
      → All P xs
      → All P (change_first q f xs)
  All-change_first P q f [] step h = tt
  All-change_first P q f (x ∷ xs) step h = elim (Bool-cases (q x)) [
    | inl e ↦ rw e (step x e h.0, h.1)
    | inr e ↦ rw e (h.0, All-change_first P q f xs step h.1)
  ]

  pub All-change_all :
      (P : A → Type 0) (q : A → Bool) (f : A → A) (xs : List A)
      → ((x : A) → q x ≡ true → P x → P (f x))
      → All P xs
      → All P (change_all q f xs)
  All-change_all P q f [] step h = tt
  All-change_all P q f (x ∷ xs) step h = elim (Bool-cases (q x)) [
    | inl e ↦ rw e (step x e h.0, All-change_all P q f xs step h.1)
    | inr e ↦ rw e (h.0, All-change_all P q f xs step h.1)
  ]
