-- ===== src/Collect.antt =====
-- The caches of src/collectors.rs: votes, proposals and blocks by height and round.
pub mod Cache
pub mod VoteSet
pub mod Votes
pub mod Proposals
pub mod Blocks
