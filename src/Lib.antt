-- ===== src/Lib.antt =====
-- A model of bft-rs, a BFT consensus library in Rust: the state machine that a node runs, the checks
-- of what it receives, its caches, its wire format and its write-ahead log.
--
-- How the parts interact. `Bft::start` (src/algorithm.rs) runs a main loop that takes a message or a
-- due timeout and calls `process` or `timeout_process`. A message is decoded, checked and stored by
-- the `check_and_save_…` methods (src/utils.rs), in the caches (src/collectors.rs) and the log
-- (src/wal.rs), and then handled; the handlers count votes, lock, move to another round or height,
-- and send. On a start the log is loaded and replayed through the same handlers.
--
-- Files:
--   Prelude    Boolean tests, lists and maps over the native numbers, 64-bit words, and the errors of
--              src/error.rs as a result type with a third case for a panic
--   Objects    the types of src/objects.rs and src/lib.rs; Kinds has the enumerations with their
--              codes, Authority the authority list
--   Framing    `combine_two`, `extract_two`, `encode_block` and `decode_block` of src/utils.rs, and
--              `get_proposal_hash` of src/lib.rs
--   Weight     `get_total_weight`, `get_votes_weight` and `get_index` of src/utils.rs, the last one
--              with the feature `random_proposer` in Random
--   Env        what the code takes from outside: `BftSupport` (src/lib.rs), the crates rlp, lru_cache
--              and rand, and the build's features, with the laws of rlp and lru_cache
--   Codec      the `Encodable` and `Decodable` implementations of src/lib.rs, src/objects.rs and
--              src/timer.rs
--   Collect    src/collectors.rs: VoteSet, Votes, Proposals and Blocks; Cache is about the caches
--              behind them, and a Refines for each collector about its view as a map
--   Wal        src/wal.rs, over a directory that is kept as state
--   Machine    src/params.rs (Params), the state of src/algorithm.rs (State), methods that keep their
--              changes when they fail (Monad, with frame rules in Monad/Keeps), and the small
--              methods of src/utils.rs (Access)
--   Checks     the checks of src/utils.rs (Checks, Votes, Save) and `check_proof` of src/lib.rs
--   Core       src/algorithm.rs and src/byzantine.rs: Transmit, Byzantine, Rounds, Counting, Handlers
--              and Process, with the replay of the log in Replay; Height has the frame rules of
--              the height and the lock, and is about the height; Locking and Agreement are about the
--              lock, Justified about the votes behind it, and Transmit/Offer about the proposal
--              made of it; Commits is about the votes that are stored, the proof and the commit made
--              of them, and the commits of two nodes; Entry is about entering a height, and about
--              runs over any number of heights; Start has the main loop's thread
--   Timer      the loop of `WaitTimer` of src/timer.rs, over the heap of the crate min_max_heap
--   Tests      a concrete environment, tests and examples
--
-- Conventions. A `u64` is a number, with its wrap-around written out in `add64`, `sub64` and `mul64`,
-- as in a release build. An `Instant` and a `Duration` are numbers of nanoseconds, and the clock
-- stands still within one handler. A `HashMap` is a list of entries, and a loop over it takes the
-- list's order. What a method does to the outside (a broadcast, a send on the node's own channel, a
-- timer, a spawned thread) is an entry of `effects`, the newest first; a send succeeds. An error
-- keeps its kind but not its text, and the log lines are left out. A panic is a result of its own,
-- which nothing catches.
--
-- Bounds. Loops over lists are structural. `parse_records` runs on fuel, and `load` gives it the
-- length of the file: every record has five bytes at least, so this is enough.
--
-- The timer's inner loop runs on fuel, one step for each timeout of the heap; the loop that draws in
-- `get_index` of `random_proposer` runs on fuel too, and ends only if the generator gives a draw that
-- is low enough. The main loop is a function of the list of what it receives, until a `Kill`.
--
-- Not modelled: the feature `compact_block`; the threads and channels, of which what is received and
-- whether a send of the timer succeeds are inputs; failures of the file system; `BftActuator`, which
-- starts the threads and passes messages on; the tests, which drive threads and files.
pub mod Prelude
pub mod Objects
pub mod Framing
pub mod Weight
pub mod Env
pub mod Codec
pub mod Collect
pub mod Wal
pub mod Machine
pub mod Checks
pub mod Core
pub mod Timer
mod Tests
