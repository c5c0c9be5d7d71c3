-- ===== src/Tests.antt =====
-- Concrete inputs: the environment of the examples, tests of the definitions, and an instance of
-- each theorem that has hypotheses.
pub mod Sample
mod Framing
mod Checks
mod Machine
mod Timer
mod Commits
mod Locks
mod Fork
mod Start
mod Caches
mod Codec
mod Random
