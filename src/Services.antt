-- ===== src/Services.antt =====
-- services/: the checks and messages around the engine.
pub mod Validator
pub mod Accounts
pub mod Candles
pub mod OrderBooks
pub mod Pairs
pub mod Deposits
pub mod Trades
pub mod Orders
