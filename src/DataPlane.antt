-- ===== src/DataPlane.antt =====
-- The data plane: data_plane/*.py
pub mod Message
pub mod Routing
pub mod Surface
pub mod Dispatcher
pub mod Protocol
pub mod Tsig
pub mod Server
pub mod Tcp
pub mod Locks
