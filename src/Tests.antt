-- ===== src/Tests.antt =====
-- Tests, and the instances of the theorems at concrete inputs.
mod Samples
mod Dispatch
mod Providers
mod Protocol
mod Supervisor
mod Api
mod Config
mod Login
mod Rows
mod Server
mod Process
mod Logging
mod App
mod Audit
mod Migrations
mod Pipeline
mod Locks
mod Tokens
