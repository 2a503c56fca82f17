-- ===== src/Socket.antt =====
-- socket.c: the socket API over the connections of util.c.
pub mod Setup
pub mod Accept
pub mod Connect
pub mod Transfer
pub mod Control
pub mod Keeps
pub mod Calls
