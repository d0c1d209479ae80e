-- ===== src/Swap.antt =====
-- swap/: deposits from other chains.
pub mod Ethereum
pub mod Passing
pub mod Bitcoin
pub mod Rounds
pub mod Configurator
pub mod Amounts
