-- ===== src/Core/Replay.antt =====
-- `load_wal_log` and `process_wal_log` of src/utils.rs, and one round of the main loop.
use bft_rs.Prelude.{ℕ, true, false, List, [], ◌∷◌, should_not_happen}
use bft_rs.Objects.{Bytes, BftMsg, LogType, TimeoutInfo}
use bft_rs.Env.{Env}
use bft_rs.Framing.{combine_two, decode_block}
use bft_rs.Codec.{
  decode_with, item_signed_proposal, item_feed, item_status, item_proof, item_verify_resp,
  item_timeout_info,
}
use bft_rs.Wal
use bft_rs.Machine.Monad.{M, get, modify, lift, ◌>>=◌, ◌>>◌, done, handle_err, need}
use bft_rs.Machine.Access.{blocks_get, blocks_add, set_proof}
use bft_rs.Core.Process.{process, timeout_process}

module _ ⦃env : Env⦄ where
  unfoldable pub process_wal_log : LogType → Bytes → M (Unit {0})
  process_wal_log LogType.proposal encode = do
    signed_proposal ← lift (decode_with item_signed_proposal encode)
    found ← blocks_get signed_proposal.proposal.height signed_proposal.proposal.block_hash
    block ← need should_not_happen found
    process (BftMsg.proposal (combine_two encode block)) false
  process_wal_log LogType.vote encode = process (BftMsg.vote encode) false
  process_wal_log LogType.feed encode = do
    feed ← lift (decode_with item_feed encode)
    process (BftMsg.feed feed) false
  process_wal_log LogType.status encode = do
    status ← lift (decode_with item_status encode)
    process (BftMsg.status status) false
  process_wal_log LogType.proof encode = do
    proof ← lift (decode_with item_proof encode)
    set_proof proof
  process_wal_log LogType.verify_resp encode = do
    resp ← lift (decode_with item_verify_resp encode)
    process (BftMsg.verify_resp resp) false
  process_wal_log LogType.time_out_info encode = do
    s ← get
    t ← lift (decode_with (item_timeout_info s.clock) encode)
    timeout_process t false
  process_wal_log LogType.block encode = do
    (height, block, block_hash) ← lift (decode_block encode)
    _ ← blocks_add height block_hash block
    done

  unfoldable pub replay : List (LogType × Bytes) → M (Unit {0})
  unfolding process_wal_log
  replay [] = done
  replay ((t, encode) ∷ rs) = handle_err (process_wal_log t encode) >> replay rs

  -- `load_wal_log`
  unfoldable pub load_wal_log : M (Unit {0})
  unfolding replay
  load_wal_log = do s ← get; records ← lift (Wal.load s.wal_log); replay records

  -- What the main loop receives: a message or a due timeout, at an instant.
  pub data Event : Type 0 where
    message : ℕ → BftMsg → Event
    timeout : ℕ → TimeoutInfo → Event

  -- One round of the main loop of `start`.
  unfoldable pub handle_event : Event → M (Unit {0})
  handle_event (message now msg) = do
    modify λ s. record s { clock = now }
    handle_err (process msg true)
  handle_event (timeout now t) = do
    modify λ s. record s { clock = now }
    handle_err (timeout_process t true)
