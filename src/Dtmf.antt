-- ===== src/Dtmf.antt =====
-- The tone generator and detector of hw1: see the children.
pub mod Audio
pub mod Args
pub mod Generate
pub mod Goertzel
pub mod Detect
pub mod Copies
pub mod Main
