-- ===== src/Tests/Websocket.antt =====
-- Runs of the theorems on sockets with the clients 1 and 2, and on the connections of address 5.
use text.Mathlib.Text.{◌==◌ as str_eq}
use dex_server.Prelude.{arith, not, ◌==◌, ◌&&◌, ◌||◌, if◌then◌else◌, ◌≡◌, refl, none, some, [], ◌∷◌}
use dex_server.Domain.Errors.{ok}
use dex_server.Ws.Sockets.{
  Socket, new_socket, put, entry, Server, subscribe, subscribe_client, register_handler,
  unsubscribe_channel, unsubscribe, broadcast_message, close_connection,
}
use dex_server.Ws.Sockets.Table.{count}
use dex_server.Ws.Sockets.Relation.{is_subscribed, joined, listed}
use dex_server.Ws.Sockets.Refinement
use dex_server.Ws.Sockets.Refinement.{Reachable-is_subscribed, Reachable-broadcast_message}
use dex_server.Ws.Sockets.Closing.{Serving, close_connection-is_subscribed}
use dex_server.Ws.OrderConnections.{
  Connections, register_order_connection, unsubscribe_handler, send_order_message,
}
use dex_server.Ws.OrderConnections.Refinement as Reaching
use dex_server.Ws.OrderConnections.Refinement.{Reachable-send_order_message}

-- Both clients listen to one channel, the first to another one as well.
abbrev busy : Socket
busy = joined "b" 1 (joined "a" 2 (joined "a" 1 new_socket))

busy-Reachable : Refinement.Reachable busy
unfolding subscribe
busy-Reachable =
    Refinement.Reachable.after_subscribe "b" 1 _ busy
      (Refinement.Reachable.after_subscribe "a" 2 _ _
        (Refinement.Reachable.after_subscribe "a" 1 _ _ Refinement.Reachable.start refl) refl)
      refl

Reachable-is_subscribed_example :
    ((s' : Socket) × (subscribe "b" (some 2) busy ≡ ok s')
      × (is_subscribed s' "a" 1 ≡ ((str_eq "b" "a" && (2 == 1)) || is_subscribed busy "a" 1)))
    × (is_subscribed (unsubscribe_channel "b" 2 busy) "a" 1
        ≡ (not (str_eq "b" "a" && (2 == 1)) && is_subscribed busy "a" 1))
    × (is_subscribed (unsubscribe 2 busy) "a" 1 ≡ (not (2 == 1) && is_subscribed busy "a" 1))
Reachable-is_subscribed_example = Reachable-is_subscribed "b" "a" 2 1 busy busy-Reachable

Reachable-broadcast_message_example : count 2 (broadcast_message "a" busy) ≡ 1
unfolding put entry
Reachable-broadcast_message_example = Reachable-broadcast_message "a" 2 busy busy-Reachable

abbrev empty_server : Server
empty_server = record { socket = new_socket; unsubscribe_handlers = λ c. [] }

abbrev serving : Server
unfolding register_handler
serving = register_handler 1 "a" (record empty_server { socket = joined "a" 1 new_socket })

serving-Serving : Serving serving
unfolding serving subscribe_client subscribe
serving-Serving = Serving.after_subscribe_client "a" 1 empty_server serving Serving.start refl

close_connection-is_subscribed_example :
    is_subscribed (close_connection ("z" ∷ "a" ∷ []) 1 serving).socket "a" 1
    ≡ (not (1 == 1) && is_subscribed serving.socket "a" 1)
unfolding serving register_handler listed
close_connection-is_subscribed_example =
    close_connection-is_subscribed ("z" ∷ "a" ∷ []) "a" 1 1 serving serving-Serving
      (λ x h. ground arith)

abbrev connected : Connections
unfolding register_order_connection
connected = register_order_connection 5 1 (λ a. none)

connected-Reachable : Reaching.Reachable connected
unfolding connected
connected-Reachable = Reaching.Reachable.after_register 5 1 _ Reaching.Reachable.start

Reachable-send_order_message_example :
    (count 1 (send_order_message 5 (register_order_connection 5 2 connected))
      ≡ (if (5 == 5) && (2 == 1) then 1 else count 1 (send_order_message 5 connected)))
    × ((m' : Connections) × (unsubscribe_handler 5 2 connected ≡ ok m')
        × (count 1 (send_order_message 5 m')
            ≡ (if (5 == 5) && (2 == 1) then 0 else count 1 (send_order_message 5 connected))))
Reachable-send_order_message_example =
    Reachable-send_order_message 5 5 2 1 connected connected-Reachable
