-- ===== src/Wal/Records.antt =====
-- Reading back the records of a file.
use bft_rs.Prelude.{
  ℕ, suc, ◌+◌, ◌%◌, ◌^◌, ◌<◌, ◌≡◌, List, [], ◌∷◌, ◌++◌, ok, ◌>>=◌, length, arith, length-append,
  take-append, drop-append,
}
use bft_rs.Objects.{Bytes, LogType}
use bft_rs.Objects.Kinds.{log_type_to_u8, log_type_roundtrip}
use bft_rs.Framing.Digits.{to_le_bytes, length-to_le_bytes, from_le_bytes-to_le_bytes}
use bft_rs.Wal.{record_bytes, parse_records}

-- The contents of a file to which the records were saved.
abbrev pub file_of : List (LogType × Bytes) → Bytes
file_of [] = []
file_of ((t, msg) ∷ rs) = record_bytes t msg ++ file_of rs

-- A length mark holds the message's length.
abbrev pub Fits : LogType × Bytes → Type 0
Fits (t, msg) = length msg < 2 ^ 32

pub length-record_bytes : (t : LogType) (msg : Bytes) → length (record_bytes t msg) ≡ 5 + length msg
unfolding record_bytes
length-record_bytes t msg = omega (
  arith,
  length-append (to_le_bytes 4 (length msg % 2 ^ 32)) (log_type_to_u8 t ∷ msg),
  length-to_le_bytes 4 (length msg % 2 ^ 32),
)

-- The first record of a buffer, and what follows.
pub parse_step :
    (fuel : ℕ) (t : LogType) (msg rest : Bytes)
    → length msg < 2 ^ 32
    → parse_records (suc fuel) (record_bytes t msg ++ rest)
      ≡ (parse_records fuel rest >>= λ out. ok ((t, msg) ∷ out))
unfolding parse_records record_bytes to_le_bytes
parse_step fuel t msg rest fits = ground (
  arith,
  from_le_bytes-to_le_bytes 4 (length msg % 2 ^ 32),
  log_type_roundtrip t,
  take-append msg rest,
  drop-append msg rest,
  length-append msg rest,
)
