-- ===== src/SocketServer.antt =====
-- Operating-systems/lab10/zad1: the calculation server over stream sockets, and its client.
pub mod Protocol
pub mod Server
pub mod Calculator
pub mod Wire
mod Examples
