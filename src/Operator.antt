-- ===== src/Operator.antt =====
-- operator/: the transaction queues that settle matches on the chain.
pub mod Queues
pub mod Execution
