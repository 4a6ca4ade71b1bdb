-- ===== src/Api.antt =====
-- The management plane: api/*.py
pub mod RateLimit
pub mod Csrf
pub mod Auth
pub mod Login
pub mod Rows
pub mod Tokens
pub mod Views
pub mod Endpoints
pub mod Pipeline
pub mod App
pub mod Correlation
