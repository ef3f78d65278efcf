-- ===== src/Jeux.antt =====
-- The game server of hw5: see the children.
pub mod Run
pub mod Store
pub mod Game
pub mod Invitation
pub mod Player
pub mod PlayerRegistry
pub mod ClientRegistry
pub mod Protocol
pub mod Server
pub mod Main
