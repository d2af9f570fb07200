-- ===== src/Scan.antt =====
-- src/network/tcp_async_scan.cpp: the TCP scanner.
pub mod Checksum
pub mod Frame
pub mod Syn
pub mod Kernel
pub mod Worker
pub mod Pool
