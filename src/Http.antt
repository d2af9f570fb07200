-- ===== src/Http.antt =====
-- src/network/http_client.cpp: `http_get`. Its URL, the exchange with the server, and the reply.
pub mod Url
pub mod Ports
pub mod UrlShape
pub mod UrlBounds
pub mod Reply
pub mod Sizes
pub mod Chunks
pub mod Response
pub mod Client
pub mod Trust
