-- ===== src/Core/Entry.antt =====
-- The state with which a node enters a height: `set_status`, `goto_new_height` and `flush_cache` of
-- src/utils.rs and src/algorithm.rs.
pub mod Authorities
pub mod Flush
pub mod Enter
pub mod Leads
pub mod Waits
pub mod Climbs
pub mod Safety
