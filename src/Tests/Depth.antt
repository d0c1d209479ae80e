-- ===== src/Tests/Depth.antt =====
-- A run of the theorem on the order book by price.
use dex_server.Prelude.{[], ◌∷◌, List}
use dex_server.Domain.Order.{Order}
use dex_server.Backend.Memory.{Memory}
use dex_server.Tests.Samples.{market, bid, half_filled_bid}

-- Two bids at one price.
abbrev bidders : Memory
bidders = record market { orders = half_filled_bid ∷ bid ∷ [] }

abbrev stored : Memory → List Order
stored d = d.orders
