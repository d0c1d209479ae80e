-- ===== src/Services/Orders/Settlement/Messages.antt =====
-- services/order.go: whom the service tells that trades have failed.
use mathlib.Core.List.{append-nil, append_assoc}
use dex_server.Prelude.{ℕ, ◌≡◌, refl, sym, ap, ◌∙◌, Bool, List, [], ◌∷◌, ◌++◌, map}
use dex_server.Domain.Errors.{ok}
use dex_server.Domain.Order.{Order}
use dex_server.Domain.Trade.{Trade, TradeStatus}
use dex_server.Domain.Matches.{Matches}
use dex_server.Backend.{Backend, Notification, order_message, trade_update, order, matches}
use dex_server.Daos.Trades.{update_trade_status}
use dex_server.Services.Orders.{trade_pair}
use dex_server.Services.Orders.Responses.{broadcast_trade_update}
use dex_server.Services.Orders.Settlement.{in_error, tell_makers, fail_trades, fail_matches}

-- `notes` names what was sent over the websockets: sending adds to it, and an update of the trades
-- does not.
pub record NoteLaws {D : Type 0} (b : Backend D) (notes : D → List Notification) : Type 0 where
  pub notify_adds : (n : Notification) (d : D) → notes (b.notify n d) ≡ notes d ++ n ∷ []
  pub update_keeps :
      (q : Trade → Bool) (f : Trade → Trade) (d : D) → notes (b.trades.update q f d).1 ≡ notes d

module _ {D : Type 0} (b : Backend D) (notes : D → List Notification)
    (laws : NoteLaws b notes) where
  -- What the makers are told.
  abbrev pub to_makers : List Order → List Notification
  to_makers os = map (λ (o : Order). order_message "ORDER_ERROR" o.user_address (order o)) os

  fail_trades-notes :
      (ts : List Trade) (d : D)
      → ((fail_trades b ts d).0 ≡ ok tt) × (notes (fail_trades b ts d).1 ≡ notes d)
  unfolding fail_trades update_trade_status
  fail_trades-notes [] d = (refl, refl)
  fail_trades-notes (t ∷ ts) d =
      let e = (update_trade_status b t.hash TradeStatus.error d).1 in
      let ih = fail_trades-notes ts e in (ih.0, ih.1 ∙ laws.update_keeps _ _ d)

  tell_makers-notes :
      (os : List Order) (d : D)
      → ((tell_makers b "ORDER_ERROR" order os d).0 ≡ ok tt)
        × (notes (tell_makers b "ORDER_ERROR" order os d).1 ≡ notes d ++ to_makers os)
  unfolding tell_makers
  tell_makers-notes [] d = (refl, sym (append-nil (notes d)))
  tell_makers-notes (o ∷ os) d =
      let n = order_message "ORDER_ERROR" o.user_address (order o) in
      let ih = tell_makers-notes os (b.notify n d) in
      (
        ih.0,
        ih.1
            ∙ ap (λ l. l ++ to_makers os) (laws.notify_adds n d)
            ∙ append_assoc (notes d) (n ∷ []) (to_makers os),
      )

  broadcast_trade_update-ok :
      (t : Trade) (ts : List Trade) (d : D) {base quote : ℕ}
      → trade_pair t ≡ ok (base, quote)
      → broadcast_trade_update b (t ∷ ts) d ≡ (ok tt, b.notify (trade_update base quote (t ∷ ts)) d)
  unfolding broadcast_trade_update
  broadcast_trade_update-ok t ts d h = rw (h, broadcast_trade_update) refl

  -- Let sending add a notification and an update of the trades none. When a batch whose first
  -- trade has its tokens has failed, the taker of that trade is told, then every maker in the
  -- order of the orders, and then the subscribers of the trade's pair; this and nothing else is
  -- sent, whether or not the trades could be updated.
  pub fail_matches-notes :
      (makers : List Order) (taker : Order) (t : Trade) (ts : List Trade) (d : D) {base quote : ℕ}
      → trade_pair (in_error t) ≡ ok (base, quote)
      → let m : Matches = record { maker_orders = makers; taker_order = taker; trades = t ∷ ts } in
        let failed = map in_error (t ∷ ts) in
        let told = order_message "ORDER_ERROR" t.taker (matches (record m { trades = failed })) in
        ((fail_matches b m d).0 ≡ ok tt)
        × (notes (fail_matches b m d).1
            ≡ notes d ++ told ∷ (to_makers makers ++ trade_update base quote failed ∷ []))
  unfolding fail_matches
  fail_matches-notes makers taker t ts d {base} {quote} h =
      let m : Matches = record { maker_orders = makers; taker_order = taker; trades = t ∷ ts } in
      let failed = map in_error (t ∷ ts) in
      let told = order_message "ORDER_ERROR" t.taker (matches (record m { trades = failed })) in
      let (done, same) = fail_trades-notes (t ∷ ts) d in
      let d₁ = (fail_trades b (t ∷ ts) d).1 in
      let d₂ = b.notify told d₁ in
      let (done', sent) = tell_makers-notes makers d₂ in
      let d₃ = (tell_makers b "ORDER_ERROR" order makers d₂).1 in
      let last = trade_update base quote failed in
      let news = broadcast_trade_update-ok (in_error t) (map in_error ts) d₃ h in
      (
        rw (done, done', news) refl,
        rw (done, done', news)
            (laws.notify_adds last d₃
              ∙ rw (sent, laws.notify_adds told d₁, same)
                  (ap (λ l. l ++ last ∷ []) (append_assoc (notes d) (told ∷ []) (to_makers makers))
                    ∙ append_assoc (notes d) (told ∷ to_makers makers) (last ∷ []))),
      )
