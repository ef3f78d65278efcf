-- ===== src/Legion.antt =====
-- The daemon manager of hw4: see the children.
pub mod Daemons
pub mod Commands
pub mod Parse
pub mod Session
pub mod Child
pub mod Logs
pub mod Status
