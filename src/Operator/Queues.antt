-- ===== src/Operator/Queues.antt =====
-- operator/operator.go: the choice of a transaction queue.
use Prim.Native.String.{String}
use dex_server.Prelude.{
  ℕ, ◌≤◌, ◌<◌, ◌≡◌, refl, ◌⊎◌, inl, inr, List, [], ◌∷◌, All, ltb, if◌then◌else◌, arith, Bool-cases,
}
use dex_server.Domain.Errors.{err, queue_full}
use dex_server.Domain.Matches.{Matches}
use dex_server.Backend.{Backend, tx_queue}
use dex_server.Backend.Monad.{Action, throw}
use dex_server.Backend.Laws.{Contained, All-map}

module _ {D : Type 0} (b : Backend D) where
  -- The loop of `GetShortestQueue` over the names of the queues. The queue that it starts from is an
  -- empty one, and is never nil.
  unfoldable pub shortest_loop : D → String → ℕ → List String → String × ℕ
  shortest_loop d shortest least [] = (shortest, least)
  shortest_loop d shortest least (q ∷ qs) =
      let ln = b.queue_length q d in
      shortest_loop d (if ltb ln least then q else shortest) (if ltb ln least then ln else least) qs

  unfoldable pub get_shortest_queue : D → List String → String × ℕ
  unfolding shortest_loop
  get_shortest_queue d qs = shortest_loop d "" 1000 qs

  unfoldable pub queue_trade : List String → Matches → Action D (Unit {0})
  unfolding get_shortest_queue
  queue_trade qs m d =
      let (q, len) = get_shortest_queue d qs in
      if ltb 10 len then throw queue_full d else b.publish (tx_queue q m) d

  -- The loop finds a minimum: the one that it began with, or the length of the queue that it names.
  pub shortest_loop-least :
      (d : D) (s : String) (least : ℕ) (qs : List String)
      → let (q, len) = shortest_loop d s least qs in
        (len ≤ least)
        × All (λ p. len ≤ b.queue_length p d) qs
        × (((q ≡ s) × (len ≡ least)) ⊎ (Contained q qs × (len ≡ b.queue_length q d)))
  unfolding shortest_loop
  shortest_loop-least d s least [] = (omega arith, tt, inl (refl, refl))
  shortest_loop-least d s least (q ∷ qs) =
      let ln = b.queue_length q d in
      let ih =
        shortest_loop-least d (if ltb ln least then q else s) (if ltb ln least then ln else least)
          qs in
      (ground (arith, ih.0), (ground (arith, ih.0), ih.1), named d s least q qs _ _ ih.2)
    where
      named :
          (d : D) (s : String) (least : ℕ) (q : String) (qs : List String) (r : String) (len : ℕ)
          → let ln = b.queue_length q d in
            ((r ≡ (if ltb ln least then q else s)) × (len ≡ (if ltb ln least then ln else least)))
              ⊎ (Contained r qs × (len ≡ b.queue_length r d))
            → ((r ≡ s) × (len ≡ least)) ⊎ (Contained r (q ∷ qs) × (len ≡ b.queue_length r d))
      named d s least q qs r len (inl h) = ground arith
      named d s least q qs r len (inr h) = inr (inr h.0, h.1)

  -- Matches are published on one of the queues, of a length that is least among all and at most
  -- ten; or all queues have more than ten messages, and they are refused with nothing done.
  pub queue_trade_lem :
      (qs : List String) (m : Matches) (d : D)
      → ((q : String) × Contained q qs
          × (b.queue_length q d ≤ 10)
          × All (λ p. b.queue_length q d ≤ b.queue_length p d) qs
          × (queue_trade qs m d ≡ b.publish (tx_queue q m) d))
        ⊎ (All (λ p. 10 < b.queue_length p d) qs × (queue_trade qs m d ≡ (err queue_full, d)))
  unfolding queue_trade get_shortest_queue
  queue_trade_lem qs m d =
      let (bound, all, named) = shortest_loop-least d "" 1000 qs in
      elim (Bool-cases (ltb 10 (shortest_loop d "" 1000 qs).1)) [
        | inl e ↦ inr (All-map _ (λ p. 10 < b.queue_length p d) qs (λ p h. ground arith) all, rw e)
        | inr e ↦ inl (elim named [
          | inl (x, y) ↦ absurd (ground arith)
          | inr (c, y) ↦ (
            (shortest_loop d "" 1000 qs).0,
            c,
            ground arith,
            All-map _ (λ p. b.queue_length (shortest_loop d "" 1000 qs).0 d ≤ b.queue_length p d) qs
                (λ p h. ground arith) all,
            rw e,
          )
        ])
      ]
