-- ===== src/Core.antt =====
-- The daemon (native/src/core).
pub mod Socket
pub mod Module
pub mod Persist
pub mod Settings
pub mod Stages
pub mod Requests
pub mod Pool
