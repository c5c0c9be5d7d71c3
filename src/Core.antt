-- ===== src/Core.antt =====
-- The state machine of src/algorithm.rs, and the byzantine behaviour of src/byzantine.rs.
pub mod Transmit
pub mod Byzantine
pub mod Rounds
pub mod Counting
pub mod Entry
pub mod Commits
pub mod Justified
pub mod Handlers
pub mod Process
pub mod Replay
pub mod Height
pub mod Locking
pub mod Agreement
pub mod Start
