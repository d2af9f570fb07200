-- ===== src/Geo.antt =====
-- src/analysis/geoip.cpp: the seven providers.
pub mod Reply
pub mod Providers
pub mod Lookup
pub mod Fields
pub mod Stuck
