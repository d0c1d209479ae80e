-- ===== src/Engine.antt =====
-- engine/: the matching engine.
pub mod OrderBook
pub mod Dispatch
pub mod Transport
pub mod Delivery
