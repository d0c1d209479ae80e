-- ===== src/Ws/OrderConnections/Removal.antt =====
-- ws/orders.go: the removal of a client from the connections of an address.
use mathlib.Core.List.{append-nil, append_assoc}
use dex_server.Prelude.{
  ℕ, zero, suc, ◌+◌, ◌-◌, true, false, ◌==◌, leb, if◌then◌else◌, List, [], ◌∷◌, ◌++◌, length, take,
  drop, All, ◌≡◌, refl, sym, ap, ◌∙◌, Bool-cases, inl, inr, arith, ==_iff,
}
use dex_server.Domain.Errors.{ok}
use dex_server.Ws.OrderConnections.{remove_client, shifted}

abbrev pub IsDistinct : List ℕ → Type 0
IsDistinct [] = Unit
IsDistinct (x ∷ xs) = All (λ y. (y == x) ≡ false) xs × IsDistinct xs

abbrev pub IsAbsent : ℕ → List ℕ → Type 0
IsAbsent c xs = All (λ y. (y == c) ≡ false) xs

-- The list without the client.
unfoldable pub without : ℕ → List ℕ → List ℕ
without c [] = []
without c (x ∷ xs) = if x == c then without c xs else x ∷ without c xs

take-append : (xs ys : List ℕ) (n : ℕ) → n ≡ length xs → take n (xs ++ ys) ≡ xs
take-append [] ys n e = rw e refl
take-append (x ∷ xs) ys n e = rw e (ap (λ us. x ∷ us) (take-append xs ys (length xs) refl))

take_all : (xs : List ℕ) (n : ℕ) → n ≡ length xs → take n xs ≡ xs
take_all [] n e = rw e refl
take_all (x ∷ xs) n e = rw e (ap (λ us. x ∷ us) (take_all xs (length xs) refl))

length-append : (xs ys : List ℕ) → length (xs ++ ys) ≡ length xs + length ys
length-append [] ys = omega arith
length-append (x ∷ xs) ys = omega (arith, length-append xs ys)

pub IsAbsent-append :
    (c : ℕ) (xs ys : List ℕ) → IsAbsent c xs → IsAbsent c ys → IsAbsent c (xs ++ ys)
IsAbsent-append c [] ys h k = k
IsAbsent-append c (x ∷ xs) ys h k = (h.0, IsAbsent-append c xs ys h.1 k)

IsAbsent-drop : (c n : ℕ) (xs : List ℕ) → IsAbsent c xs → IsAbsent c (drop n xs)
IsAbsent-drop c zero xs h = h
IsAbsent-drop c (suc n) [] h = tt
IsAbsent-drop c (suc n) (x ∷ xs) h = IsAbsent-drop c n xs h.1

without_absent : (c : ℕ) (xs : List ℕ) → IsAbsent c xs → without c xs ≡ xs
unfolding without
without_absent c [] h = refl
without_absent c (x ∷ xs) h = rw (h.0) (ap (λ us. x ∷ us) (without_absent c xs h.1))

-- The rest of the loop finds nothing to remove.
remove_client-absent :
    (fuel c : ℕ) (done rest : List ℕ) (len : ℕ)
    → IsAbsent c rest
    → remove_client fuel c done rest len ≡ ok (take len (done ++ rest))
unfolding remove_client
remove_client-absent zero c done [] len h = ap (λ xs. ok (take len xs)) (sym (append-nil done))
remove_client-absent (suc fuel) c done [] len h =
    ap (λ xs. ok (take len xs)) (sym (append-nil done))
remove_client-absent zero c done (x ∷ xs) len h = refl
remove_client-absent (suc fuel) c done (x ∷ xs) len h = rw h.0 (
    remove_client-absent fuel c (done ++ x ∷ []) xs len h.1
    ∙ ap (λ us. ok (take len us)) (append_assoc done (x ∷ []) xs))

-- The client is removed at the index, and what moves forward has no other.
removed_lem :
    (c x : ℕ) (done xs : List ℕ) (live len : ℕ)
    → IsAbsent c xs
    → live ≡ length xs
    → len ≡ length done + length xs
    → remove_client
        (length xs)
        c
        (done ++ take 1 (shifted live x xs))
        (drop 1 (shifted live x xs))
        len
      ≡ ok (done ++ xs)
unfolding remove_client
removed_lem c x done [] live len h e k =
    rw e (ap ok (take-append done (x ∷ []) len (omega (arith, k)) ∙ sym (append-nil done)))
removed_lem c x done (y ∷ ys) live len h e k =
    let moved = drop (length ys) (y ∷ ys) in
    let absent = IsAbsent-append c ys moved h.1 (IsAbsent-drop c (length ys) (y ∷ ys) h) in
    let whole : take len ((done ++ y ∷ []) ++ (ys ++ moved)) ≡ done ++ y ∷ ys =
      ap (take len)
        (append_assoc done (y ∷ []) (ys ++ moved) ∙ sym (append_assoc done (y ∷ ys) moved))
      ∙ take-append (done ++ y ∷ ys) moved len (k ∙ sym (length-append done (y ∷ ys))) in
    rw (e, take_all ys (length ys) refl)
      (remove_client-absent (suc (length ys)) c (done ++ y ∷ []) (ys ++ moved) len absent
        ∙ ap ok whole)

-- Where the clients from an index on are distinct, the loop of the handler, run from there on the
-- whole slice, does not panic and leaves the slice without the client.
pub remove_client-without :
    (c : ℕ) (done rest : List ℕ) (len : ℕ)
    → IsDistinct rest
    → len ≡ length done + length rest
    → remove_client (length rest) c done rest len ≡ ok (done ++ without c rest)
unfolding remove_client without
remove_client-without c done [] len d e =
    ap ok (take_all done len (omega (arith, e)) ∙ sym (append-nil done))
remove_client-without c done (x ∷ xs) len d e = elim (Bool-cases (x == c)) [
  | inl b ↦
      let absent : IsAbsent c xs = rw (← (==_iff x c).0 b) d.0 in
      let inside : leb (suc (length done)) len ≡ true = ground (arith, e) in
      rw (b, inside, without_absent c xs absent)
        (removed_lem c x done xs (len - suc (length done)) (len - 1) absent (omega (arith, e))
          (omega (arith, e)))
  | inr b ↦ rw b (
      remove_client-without c (done ++ x ∷ []) xs len d.1
        (omega (arith, e, length-append done (x ∷ [])))
      ∙ ap ok (append_assoc done (x ∷ []) (without c xs)))
]
