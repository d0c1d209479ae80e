-- ===== src/Domain.antt =====
-- types/: the data that the other components exchange.
pub mod Errors
pub mod Order
pub mod OrderCancel
pub mod Pair
pub mod Trade
pub mod Matches
pub mod Account
pub mod Deposit
