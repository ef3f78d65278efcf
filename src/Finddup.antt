-- ===== src/Finddup.antt =====
-- The finder of files with the same contents of hw2: see the children.
pub mod Contents
pub mod Scans
pub mod Compare
pub mod Division
pub mod Moves
pub mod Names
pub mod Output
pub mod Main
pub mod Duplicates
pub mod Order
mod Tests
