-- ===== src/Engine/Transport.antt =====
-- rabbitmq/orders.go: the messages with an order on the engine's queue, and how `HandleOrders` of
-- engine/engine.go tells the messages apart. `decode_matches` decodes the matches of the others.
use Prim.Native.String.{String}
use text.Mathlib.Text.{◌==◌ as str_eq}
use dex_server.Prelude.{if◌then◌else◌}
use dex_server.Domain.Errors.{Result}
use dex_server.Domain.Order.{Order}
use dex_server.Domain.Matches.{Matches}
use dex_server.Codec.{Json, Texts}
use dex_server.Codec.Orders.{zero_order, marshal_order, unmarshal_order}
use dex_server.Engine.Dispatch.{
  EngineMessage, new_order, add_order_message, cancel_order, invalidate_makers, invalidate_takers,
  unknown,
}

-- `rabbitmq.Message`
pub record QueueMessage : Type 0 where
  pub kind : String
  pub payload : Json

module _ (t : Texts) where
  -- What `PublishNewOrderMessage` and `PublishCancelOrderMessage` put on the queue.
  unfoldable pub new_order_message : Order → QueueMessage
  new_order_message o = record { kind = "NEW_ORDER"; payload = marshal_order t o }

  unfoldable pub cancel_order_message : Order → QueueMessage
  cancel_order_message o = record { kind = "CANCEL_ORDER"; payload = marshal_order t o }

  -- The `switch` of `HandleOrders`, with the decoding that each handler begins with.
  unfoldable pub received : (Json → Result Matches) → QueueMessage → EngineMessage
  received decode_matches m =
      if str_eq m.kind "NEW_ORDER"
      then new_order (unmarshal_order t m.payload zero_order)
      else if str_eq m.kind "ADD_ORDER"
      then add_order_message (unmarshal_order t m.payload zero_order)
      else if str_eq m.kind "CANCEL_ORDER"
      then cancel_order (unmarshal_order t m.payload zero_order)
      else if str_eq m.kind "INVALIDATE_MAKER_ORDERS"
      then invalidate_makers (decode_matches m.payload)
      else if str_eq m.kind "INVALIDATE_TAKER_ORDERS"
      then invalidate_takers (decode_matches m.payload)
      else unknown
