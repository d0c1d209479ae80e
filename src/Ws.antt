-- ===== src/Ws.antt =====
-- ws/: the websocket server. A client is a number, for its pointer.
pub mod Sockets
pub mod OrderConnections
