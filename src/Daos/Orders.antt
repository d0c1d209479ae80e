-- ===== src/Daos/Orders.antt =====
-- daos/order.go: the orders collection. Logging of errors is left out.
pub mod Updates
pub mod Queries
pub mod Priority
pub mod Filling
pub mod Depth
