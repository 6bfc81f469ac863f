-- ===== src/Examples.antt =====
-- Concrete states, and the theorems at them.
pub mod Waves
pub mod Ends
pub mod Drained
pub mod Raced
pub mod Single
pub mod Claimed
pub mod Fleets
pub mod Schedules
pub mod Crons
pub mod People
pub mod Notices
pub mod Chats
pub mod Connected
