-- ===== src/Daos.antt =====
-- daos/: the queries and updates of the collections.
pub mod Orders
pub mod Trades
pub mod Pairs
pub mod Tokens
pub mod Associations
pub mod Config
