-- ===== src/Sockets.antt =====
-- src/network/tcp_scanner.cpp: blocking connections.
pub mod Connect
pub mod Answers
pub mod Ends
pub mod Send
pub mod Peer
