-- ===== src/Backend/Memory.antt =====
-- Services in memory that never fail, which satisfy the laws: the concrete instance on which the
-- theorems of the other modules are run.
use mathlib.Core.List.{Permᴰ}
use mathlib.Core.List.Permᴰ
use dex_server.Prelude.{
  ℕ, zero, suc, Bool, true, false, ◌≡◌, refl, sym, ◌⊎◌, Bool-cases, Option, none, some, inl, inr,
  List, [], ◌∷◌, ◌++◌, All, take, if◌then◌else◌,
}
use dex_server.Prelude.Int.{ℤ}
use dex_server.Numbers.{add}
use dex_server.Domain.Errors.{Result, ok}
use dex_server.Domain.Order.{Order}
use dex_server.Domain.Deposit.{Association, KeyValue}
use dex_server.Domain.Pair.{Pair}
use dex_server.Domain.Account.{Account, Token}
use dex_server.Domain.Trade.{Trade}
use dex_server.Backend.{Collection, Backend, Message, Notification, Receipt}
use dex_server.Backend.Laws.{
  Contained, Sorted, select, change_first, change_all, upsert, IsOrder, CollectionLaws, OrderLaws,
  IsSelective, All-map,
}

-- `balances` and `allowances` are those of every account, by token.
pub record Memory : Type 0 where
  pub orders : List Order
  pub trades : List Trade
  pub pairs : List Pair
  pub accounts : List Account
  pub tokens : List Token
  pub associations : List Association
  pub config : List KeyValue
  pub published : List Message
  pub notified : List Notification
  pub time : ℕ
  pub balances : ℕ → ℤ
  pub allowances : ℕ → ℤ
  -- the length of every queue, and what the Ethereum node answers
  pub queue : ℕ
  pub gas : ℕ
  pub receipt : Receipt

module _ {A : Type 0} where
  -- no limit if 0
  abbrev limited : ℕ → List A → List A
  limited zero xs = xs
  limited (suc n) xs = take (suc n) xs

  abbrev place : (A → A → Bool) → A → List A → List A
  place before x [] = x ∷ []
  place before x (y ∷ ys) = if before x y then x ∷ y ∷ ys else y ∷ place before x ys

  abbrev sort : (A → A → Bool) → List A → List A
  sort before [] = []
  sort before (x ∷ xs) = place before x (sort before xs)

  abbrev present : List (Option A) → List A
  present [] = []
  present (none ∷ xs) = present xs
  present (some x ∷ xs) = x ∷ present xs

  abbrev modified : (A → Bool) → (A → A) → A → List A → A
  modified q f new [] = new
  modified q f new (x ∷ xs) = if q x then f x else modified q f new xs

  abbrev in_memory : {D : Type 0} → (D → List A) → (List A → D → D) → Collection A D
  in_memory docs put = record {
    get = λ q n d. (ok (limited n (select q (docs d))), d);
    update = λ q f d. (ok tt, put (change_first q f (docs d)) d);
    update_all = λ q f d. (ok tt, put (change_all q f (docs d)) d);
    find_and_modify =
        λ q f new d. (ok (modified q f new (docs d)), put (upsert q f new (docs d)) d);
    aggregate = λ q before d. (ok (sort before (select q (docs d))), d);
    insert = λ xs d. (ok tt, put (docs d ++ present xs) d);
  }

abbrev total : (Order → Bool) → (Order → ℤ) → List Order → Option ℤ
total q f [] = none
total q f (x ∷ xs) =
    if q x then some (elim (total q f xs) [ none ↦ f x | some t ↦ add (f x) t ]) else total q f xs

abbrev pub memory : Backend Memory
memory = record {
  orders = in_memory (λ d. d.orders) (λ xs d. record d { orders = xs });
  trades = in_memory (λ d. d.trades) (λ xs d. record d { trades = xs });
  pairs = in_memory (λ d. d.pairs) (λ xs d. record d { pairs = xs });
  accounts = in_memory (λ d. d.accounts) (λ xs d. record d { accounts = xs });
  tokens = in_memory (λ d. d.tokens) (λ xs d. record d { tokens = xs });
  associations = in_memory (λ d. d.associations) (λ xs d. record d { associations = xs });
  config = in_memory (λ d. d.config) (λ xs d. record d { config = xs });
  publish = λ m d. (ok tt, record d { published = d.published ++ m ∷ [] });
  sum_orders = λ q f d. (ok (total q f d.orders), d);
  notify = λ n d. record d { notified = d.notified ++ n ∷ [] };
  now = λ d. d.time;
  new_object_id = λ d. 0;
  new_object_ids = λ d i. i;
  balance_of = λ owner token d. (ok (d.balances token), d);
  allowance = λ owner spender token d. (ok (d.allowances token), d);
  queue_length = λ name d. d.queue;
  call_batch_trades = λ m wallet d. (ok d.gas, d);
  execute_batch_trades = λ m wallet gas nonce d. (ok 99, d);
  pending_nonce_at = λ wallet d. (ok 0, d);
  wait_mined = λ tx d. (ok d.receipt, d);
}

module _ {A : Type 0} where
  select_sound :
      (q : A → Bool) (xs : List A) → All (λ x. Contained x xs × (q x ≡ true)) (select q xs)
  select_sound q [] = tt
  select_sound q (x ∷ xs) =
      let later =
        All-map _ (λ y. Contained y (x ∷ xs) × (q y ≡ true)) (select q xs) (λ y h. (inr h.0, h.1))
          (select_sound q xs) in
      elim (Bool-cases (q x)) [ inl e ↦ rw e ((inl refl, e), later) | inr e ↦ rw e later ]

  select-cons :
      (q : A → Bool) (x z : A) (xs : List A)
      → Contained z (select q xs)
      → Contained z (select q (x ∷ xs))
  select-cons q x z xs c = elim (Bool-cases (q x)) [ inl e ↦ rw e (inr c) | inr e ↦ rw e c ]

  select-head : (q : A → Bool) (x : A) (xs : List A) → q x ≡ true → Contained x (select q (x ∷ xs))
  select-head q x xs e = rw e (inl refl)

  select_complete :
      (q : A → Bool) (xs : List A) → All (λ x. q x ≡ true → Contained x (select q xs)) xs
  select_complete q [] = tt
  select_complete q (x ∷ xs) = (
    select-head q x xs,
    All-map (λ y. q y ≡ true → Contained y (select q xs)) _ xs (λ y h p. select-cons q x y xs (h p))
        (select_complete q xs),
  )

  All-take : (P : A → Type 0) (n : ℕ) (xs : List A) → All P xs → All P (take n xs)
  All-take P zero xs h = tt
  All-take P (suc n) [] h = tt
  All-take P (suc n) (x ∷ xs) h = (h.0, All-take P n xs h.1)

  All-place :
      (P : A → Type 0) (before : A → A → Bool) (x : A) (xs : List A)
      → P x
      → All P xs
      → All P (place before x xs)
  All-place P before x [] p h = (p, tt)
  All-place P before x (y ∷ ys) p h = elim (Bool-cases (before x y)) [
    | inl e ↦ rw e (p, h)
    | inr e ↦ rw e (h.0, All-place P before x ys p h.1)
  ]

  All-sort :
      (P : A → Type 0) (before : A → A → Bool) (xs : List A) → All P xs → All P (sort before xs)
  All-sort P before [] h = tt
  All-sort P before (x ∷ xs) h =
      All-place P before x (sort before xs) h.0 (All-sort P before xs h.1)

  placed : (before : A → A → Bool) (x : A) (xs : List A) → Contained x (place before x xs)
  placed before x [] = inl refl
  placed before x (y ∷ ys) = elim (Bool-cases (before x y)) [
    | inl e ↦ rw e (inl refl)
    | inr e ↦ rw e (inr (placed before x ys))
  ]

  kept :
      (before : A → A → Bool) (x z : A) (xs : List A)
      → Contained z xs
      → Contained z (place before x xs)
  kept before x z [] c = absurd c
  kept before x z (y ∷ ys) c = elim (Bool-cases (before x y)) [
    | inl e ↦ rw e (inr c)
    | inr e ↦ rw e (elim c [ inl p ↦ inl p | inr r ↦ inr (kept before x z ys r) ])
  ]

  Contained-sort :
      (before : A → A → Bool) (z : A) (xs : List A) → Contained z xs → Contained z (sort before xs)
  Contained-sort before z [] c = c
  Contained-sort before z (x ∷ xs) (inl e) = rw e (placed before x (sort before xs))
  Contained-sort before z (x ∷ xs) (inr c) =
      kept before x z (sort before xs) (Contained-sort before z xs c)

  Permᴰ-place : (before : A → A → Bool) (x : A) (xs : List A) → Permᴰ (place before x xs) (x ∷ xs)
  Permᴰ-place before x [] = Permᴰ.refl (x ∷ [])
  Permᴰ-place before x (y ∷ ys) = elim (Bool-cases (before x y)) [
    | inl e ↦ rw e (Permᴰ.refl (x ∷ y ∷ ys))
    | inr e ↦ rw e (Permᴰ.trans (Permᴰ.cons refl (Permᴰ-place before x ys)) (Permᴰ.swap refl refl))
  ]

  Permᴰ-sort : (before : A → A → Bool) (xs : List A) → Permᴰ (sort before xs) xs
  Permᴰ-sort before [] = Permᴰ.nil
  Permᴰ-sort before (x ∷ xs) =
      Permᴰ.trans (Permᴰ-place before x (sort before xs)) (Permᴰ.cons refl (Permᴰ-sort before xs))

  place-Sorted :
      (before : A → A → Bool) (x : A) (xs : List A)
      → IsOrder before
      → Sorted before xs
      → Sorted before (place before x xs)
  place-Sorted before x [] o s = (tt, tt)
  place-Sorted before x (y ∷ ys) o s = elim (Bool-cases (before x y)) [
    | inl e ↦ rw e ((e, All-map _ _ ys (λ z h. o.trans x y z e h) s.0), s)
    | inr e ↦ rw e (
      All-place _ before x ys (elim (o.total x y) [ inl t ↦ cc | inr t ↦ t ]) s.0,
      place-Sorted before x ys o s.1,
    )
  ]

  sort-Sorted :
      (before : A → A → Bool) (xs : List A) → IsOrder before → Sorted before (sort before xs)
  sort-Sorted before [] o = tt
  sort-Sorted before (x ∷ xs) o = place-Sorted before x (sort before xs) o (sort-Sorted before xs o)

  get_limited :
      (q : A → Bool) (n : ℕ) (xs : List A)
      → All (λ x. Contained x xs × (q x ≡ true)) (limited n (select q xs))
  get_limited q zero xs = select_sound q xs
  get_limited q (suc n) xs = All-take _ (suc n) (select q xs) (select_sound q xs)

  -- A query for one document finds the first that matches.
  pub one_cases :
      (q : A → Bool) (xs r : List A)
      → limited 1 (select q xs) ≡ r
      → ((r ≡ []) × All (λ y. q y ≡ false) xs)
        ⊎ ((a : A) × (r ≡ a ∷ []) × (q a ≡ true) × Contained a xs)
  one_cases q [] r h = inl (sym h, tt)
  one_cases q (x ∷ xs) r h = elim (Bool-cases (q x)) [
    | inl e ↦ inr (x, sym (rw e at h), e, inl refl)
    | inr e ↦ elim (one_cases q xs r (rw e at h)) [
      | inl (n, all) ↦ inl (n, (e, all))
      | inr (a, n, g, c) ↦ inr (a, n, g, inr c)
    ]
  ]

ok_lem : {D B : Type 0} {x y : B} {d e : D} → ◌≡◌ {A = Result B × D} (ok x, d) (ok y, e) → x ≡ y
ok_lem h = cc

pub memory-IsSelective : IsSelective memory.tokens
memory-IsSelective q n d d' r h =
    All-map (λ x. Contained x d.tokens × (q x ≡ true)) _ _ (λ x k. k.1)
      (rw (← ok_lem h) (get_limited q n d.tokens))

memory-CollectionLaws : CollectionLaws memory.orders (λ d. d.orders)
memory-CollectionLaws = record {
  get_sound = λ q n d h. rw (← ok_lem h) (get_limited q n d.orders);
  get_complete = λ q d h. rw (← ok_lem h) (select_complete q d.orders);
  get_keeps = λ q n d. refl;
  aggregate_sound = λ q before d h. rw (← ok_lem h) (All-sort _ before _ (select_sound q d.orders));
  aggregate_complete = λ q before d h. rw (← ok_lem h) (
      All-map (λ x. q x ≡ true → Contained x (select q d.orders)) _ d.orders
        (λ x k p. Contained-sort before x _ (k p)) (select_complete q d.orders));
  aggregate_perm = λ q before d h. rw (← ok_lem h) (Permᴰ-sort before (select q d.orders));
  aggregate_sorted = λ q before d o h. rw (← ok_lem h) (sort-Sorted before (select q d.orders) o);
  aggregate_keeps = λ q before d. refl;
  update_ok = λ q f d h. refl;
  update_err = λ q f d h. cc;
  update_all_ok = λ q f d h. refl;
  find_and_modify_ok = λ q f new d h. refl;
  find_and_modify_err = λ q f new d h. cc;
}

-- So the laws can be met.
pub memory-OrderLaws : OrderLaws memory (λ d. d.orders)
memory-OrderLaws = record { collection = memory-CollectionLaws; publish_keeps = λ m d. refl }
