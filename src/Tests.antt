-- ===== src/Tests.antt =====
-- Runs of the theorems on concrete orders, with the services in memory.
mod Samples
mod Texts
mod Codec
mod Websocket
mod Endpoints
mod Matching
mod Service
mod Operator
mod Payments
mod Ethereum
mod Bitcoin
mod Configurator
mod Deposits
mod Waiting
mod Amounts
mod Depth
