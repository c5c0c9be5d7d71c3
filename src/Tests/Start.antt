-- ===== src/Tests/Start.antt =====
-- The start of a node over a log with a status, and messages up to a `Kill` and after it.
use bft_rs.Prelude.{◌≡◌, refl, false, List, some, none, [], ◌∷◌, ◌++◌}
use bft_rs.Objects.{BftMsg, LogType, Status}
use bft_rs.Codec.{status_item}
use bft_rs.Wal
use bft_rs.Wal.{Wal}
use bft_rs.Machine.Monad.{◌>>=◌}
use bft_rs.Core.Process.{process}
use bft_rs.Core.Replay.{Event, message, handle_event}
use bft_rs.Core.Agreement.{Agrees}
use bft_rs.Core.Start.{main_loop, start, start-Agrees}
use bft_rs.Tests.Sample.{sample, nodes, at_height_5}
use bft_rs.Tests.Sample.Rlp.{encode}

abbrev status_4 : Status
status_4 = record { height = 4; interval = none; authority_list = nodes }

-- The log of the height 1 with this status.
abbrev log_1 : Wal
log_1 = record {
  files = (1, Wal.record_bytes LogType.status (encode (status_item status_4))) ∷ [];
  index = some 1;
  height_fs = 1 ∷ [];
  current_height = 1;
}

abbrev received : List Event
received = message 1 BftMsg.start ∷ []

abbrev later : List Event
later = message 3 BftMsg.corrupt ∷ []

-- What is received after the `Kill` is not handled: the node is not corrupt.
stopped : (main_loop (received ++ message 2 BftMsg.kill ∷ later) at_height_5).1.is_byzantine ≡ false
unfolding main_loop handle_event process ◌>>=◌
stopped = refl

start-Agrees_example : Agrees (start (1 ∷ []) 0 log_1 (received ++ message 2 BftMsg.kill ∷ later)).1
start-Agrees_example = start-Agrees (1 ∷ []) 0 log_1 (received ++ message 2 BftMsg.kill ∷ later)
