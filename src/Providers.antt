-- ===== src/Providers.antt =====
-- The DNS provider backends: providers/*.py
pub mod Base
pub mod Http
pub mod Hurricane
pub mod Route53
