-- ===== src/Core/Start.antt =====
-- `start` of src/algorithm.rs: the main loop's thread, from the log to the end of the loop.
use bft_rs.Prelude.{ℕ, false, List, [], ◌∷◌, BftResult}
use bft_rs.Objects.{Address, Bytes, BftMsg, LogType, TimeoutInfo}
use bft_rs.Env.{Env}
use bft_rs.Wal.{Wal}
use bft_rs.Machine.State.{Bft, bft_new}
use bft_rs.Machine.Monad.{M, done, ◌>>◌}
use bft_rs.Machine.Monad.Keeps.{Keeps, keeps_rules, Keeps-bind, Keeps-handle_err}
use bft_rs.Core.Process.{timeout_process}
use bft_rs.Core.Replay.{Event, message, handle_event, load_wal_log, process_wal_log, replay}
use bft_rs.Core.Height.{access_rules}
use bft_rs.Core.Agreement.{
  Agrees, agrees, bft_new-Agrees, process-Agrees, timeout-Agrees, handle_event-Agrees,
}

module _ ⦃env : Env⦄ where
  -- The loop, on what `select!` receives in turn. `Kill` ends it; so does a panic.
  unfoldable pub main_loop : List Event → M (Unit {0})
  main_loop [] = done
  main_loop (message now BftMsg.kill ∷ es) = done
  main_loop (e ∷ es) = handle_event e >> main_loop es

  -- The thread of the main loop, over the node's log, on what it receives.
  unfoldable pub start : Address → ℕ → Wal → List Event → BftResult (Unit {0}) × Bft
  unfolding main_loop
  start address now wal es = (load_wal_log >> main_loop es) (bft_new address now wal)

  replay_one-Agrees : (t : LogType) (encode : Bytes) → Keeps Agrees (process_wal_log t encode)
  unfolding process_wal_log
  replay_one-Agrees LogType.proposal encode =
      search (keeps_rules, agrees, access_rules, process-Agrees) depth 12
  replay_one-Agrees LogType.vote encode = process-Agrees (BftMsg.vote encode) false
  replay_one-Agrees LogType.feed encode = search (keeps_rules, process-Agrees) depth 12
  replay_one-Agrees LogType.status encode = search (keeps_rules, process-Agrees) depth 12
  replay_one-Agrees LogType.proof encode = search (keeps_rules, agrees, access_rules) depth 12
  replay_one-Agrees LogType.verify_resp encode = search (keeps_rules, process-Agrees) depth 12
  replay_one-Agrees LogType.time_out_info encode =
      let times : (t : TimeoutInfo) → Keeps Agrees (timeout_process t false) =
        λ t. record { at = timeout-Agrees t false } in
      search (keeps_rules, times) depth 12
  replay_one-Agrees LogType.block encode = search (keeps_rules, agrees, access_rules) depth 12

  replay-Agrees : (rs : List (LogType × Bytes)) → Keeps Agrees (replay rs)
  unfolding replay
  replay-Agrees [] = search (keeps_rules)
  replay-Agrees ((t, encode) ∷ rs) =
      Keeps-bind _ _ (Keeps-handle_err _ (replay_one-Agrees t encode)) (λ _. replay-Agrees rs)

  load-Agrees : Keeps Agrees load_wal_log
  unfolding load_wal_log
  load-Agrees = search (keeps_rules, replay-Agrees)

  main_loop-Agrees : (es : List Event) → Keeps Agrees (main_loop es)
  unfolding main_loop
  main_loop-Agrees [] = search (keeps_rules)
  main_loop-Agrees (message now BftMsg.kill ∷ es) = search (keeps_rules)
  main_loop-Agrees (e ∷ es) =
      Keeps-bind _ _ (record { at = handle_event-Agrees e }) (λ _. main_loop-Agrees es)

  -- From the start of a node on, over any log and whatever it receives, resets included: an honest
  -- node that is locked has its lock's block hash as its own.
  pub start-Agrees :
      (address : Address) (now : ℕ) (wal : Wal) (es : List Event)
      → Agrees (start address now wal es).1
  unfolding start
  start-Agrees address now wal es =
      (Keeps-bind _ _ load-Agrees (λ _. main_loop-Agrees es)).at (bft_new address now wal)
        (bft_new-Agrees address now wal)
