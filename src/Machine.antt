-- ===== src/Machine.antt =====
-- The state of a node, `Bft` of src/algorithm.rs, and the monad of its methods.
pub mod Params
pub mod State
pub mod Monad
pub mod Access
