-- ===== src/Endpoints.antt =====
-- endpoints/: what the websocket messages of a client do.
pub mod Orders
pub mod Deposits
pub mod OrderBooks
