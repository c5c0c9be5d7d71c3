-- ===== src/Wal/Torn.antt =====
-- A crash in the middle of a write leaves a prefix of a record at the end of a file.
use bft_rs.Prelude.{
  ℕ, zero, suc, ◌+◌, ◌%◌, ◌^◌, ◌<◌, ◌≤◌, ◌≡◌, refl, List, [], ◌∷◌, ◌++◌, ok, length, take, All,
  arith, length-append,
}
use mathlib.Core.List.{append_assoc}
use bft_rs.Objects.{Bytes, LogType}
use bft_rs.Framing.Digits.{to_le_bytes, from_le_bytes-to_le_bytes}
use bft_rs.Wal.{record_bytes, parse_records}
use bft_rs.Wal.Records.{file_of, Fits, parse_step, length-record_bytes}

length-take-le : (n : ℕ) (xs : Bytes) → length (take n xs) ≤ n
length-take-le zero xs = omega arith
length-take-le (suc n) [] = omega arith
length-take-le (suc n) (x ∷ xs) = omega (arith, length-take-le n xs)

-- A proper prefix of a record is no record.
torn_tail :
    (fuel k : ℕ) (t : LogType) (msg : Bytes)
    → length msg < 2 ^ 32
    → k < 5 + length msg
    → parse_records fuel (take k (record_bytes t msg)) ≡ ok []
unfolding parse_records record_bytes to_le_bytes
torn_tail zero k t msg fits short = refl
torn_tail (suc fuel) (suc (suc (suc (suc (suc j))))) t msg fits short =
    ground (arith, from_le_bytes-to_le_bytes 4 (length msg % 2 ^ 32), length-take-le j msg)
torn_tail (suc fuel) k t msg fits short = ground arith

length-record :
    (t : LogType) (msg : Bytes) (rs : List (LogType × Bytes)) (tail : Bytes)
    → length (file_of ((t, msg) ∷ rs) ++ tail) ≡ 5 + length msg + length (file_of rs ++ tail)
length-record t msg rs tail = omega (
  arith,
  length-record_bytes t msg,
  length-append (record_bytes t msg ++ file_of rs) tail,
  length-append (record_bytes t msg) (file_of rs),
  length-append (file_of rs) tail,
)

-- The records of a file that ends in a proper prefix of one more record are read, in order, and
-- the prefix is ignored. The file's length is enough fuel.
pub parse_records-torn :
    (fuel : ℕ) (rs : List (LogType × Bytes)) (t : LogType) (msg : Bytes) (k : ℕ)
    → All Fits rs
    → length msg < 2 ^ 32
    → k < 5 + length msg
    → length (file_of rs ++ take k (record_bytes t msg)) ≤ fuel
    → parse_records fuel (file_of rs ++ take k (record_bytes t msg)) ≡ ok rs
parse_records-torn fuel [] t msg k all fits short enough = torn_tail fuel k t msg fits short
parse_records-torn zero ((s, m) ∷ rs) t msg k all fits short enough =
    absurd (omega (arith, length-record s m rs (take k (record_bytes t msg))))
parse_records-torn (suc fuel) ((s, m) ∷ rs) t msg k all fits short enough =
    let rest = file_of rs ++ take k (record_bytes t msg) in
    let size = length-record s m rs (take k (record_bytes t msg)) in
    rw (
      append_assoc (record_bytes s m) (file_of rs) (take k (record_bytes t msg)),
      parse_step fuel s m rest all.0,
      parse_records-torn fuel rs t msg k all.1 fits short (omega (arith, size)),
    )
