-- ===== src/Wal/Files.antt =====
-- What a log holds after a restart.
use bft_rs.Prelude.{
  ℕ, ◌^◌, ◌<◌, ◌≡◌, ap, sym, ◌∙◌, true, List, [], ◌∷◌, ◌++◌, ok, some, length, take, All, arith,
  length-append, lookup, lookup-insert, nat_eq, take-append,
}
use mathlib.Core.List.{append_assoc, append-nil}
use bft_rs.Objects.{Bytes, LogType}
use bft_rs.Wal.{Wal, wal_new, has_height, save, load, parse_records, record_bytes}
use bft_rs.Wal.Records.{file_of, Fits, length-record_bytes}
use bft_rs.Wal.Torn.{parse_records-torn}

-- A message that `save` writes: it is not empty, and its length fits in the mark.
abbrev pub CanSave : LogType × Bytes → Type 0
CanSave (t, msg) = (0 < length msg) × (length msg < 2 ^ 32)

All-Fits : (rs : List (LogType × Bytes)) → All CanSave rs → All Fits rs
All-Fits [] h = tt
All-Fits ((t, m) ∷ rs) h = (h.0.1, All-Fits rs h.1)

file_of-append :
    (rs : List (LogType × Bytes)) (t : LogType) (msg : Bytes)
    → file_of (rs ++ ((t, msg) ∷ [])) ≡ file_of rs ++ record_bytes t msg
file_of-append [] t msg = append-nil (record_bytes t msg)
file_of-append ((s, m) ∷ rs) t msg =
    ap (λ (xs : Bytes). record_bytes s m ++ xs) (file_of-append rs t msg)
    ∙ sym (append_assoc (record_bytes s m) (file_of rs) (record_bytes t msg))

pub parse_records-file_of :
    (rs : List (LogType × Bytes))
    → All CanSave rs
    → parse_records (length (file_of rs)) (take (length (file_of rs)) (file_of rs)) ≡ ok rs
parse_records-file_of rs all =
    let whole = rw append-nil at (take-append (file_of rs) []) in
    let read = rw append-nil at (
      parse_records-torn (length (file_of rs)) rs LogType.vote [] 0 (All-Fits rs all) (omega arith)
        (omega arith) (rw append-nil (omega arith))) in
    rw whole read

-- `save` of each record in turn.
unfoldable pub save_all : ℕ → List (LogType × Bytes) → Wal → Wal
save_all h [] w = w
save_all h ((t, m) ∷ rs) w = save_all h rs (save h t m w)

-- The directory at `h` holds the records, and `h` is the height to restart from.
pub record Holds (w : Wal) (h : ℕ) (rs : List (LogType × Bytes)) : Type 0 where
  pub opened : has_height h w.height_fs ≡ true
  pub indexed : w.index ≡ some h
  pub content : lookup h w.files ≡ some (file_of rs)

save-Holds :
    (w : Wal) (h : ℕ) (rs : List (LogType × Bytes)) (t : LogType) (msg : Bytes)
    → CanSave (t, msg)
    → Holds w h rs
    → Holds (save h t msg w) h (rs ++ ((t, msg) ∷ []))
unfolding save
save-Holds w h rs t msg can holds = record {
  opened = ground arith;
  indexed = ground arith;
  content = ground (
    arith,
    file_of-append rs t msg,
    lookup-insert h h (file_of rs ++ record_bytes t msg) w.files,
  );
}

save_all-Holds :
    (w : Wal) (h : ℕ) (old rs : List (LogType × Bytes))
    → All CanSave rs
    → Holds w h old
    → Holds (save_all h rs w) h (old ++ rs)
unfolding save_all
save_all-Holds w h old [] all holds = rw append-nil holds
save_all-Holds w h old ((t, m) ∷ rs) all holds = rw (append_assoc old ((t, m) ∷ []) rs) at (
    save_all-Holds (save h t m w) h (old ++ ((t, m) ∷ [])) rs all.1
      (save-Holds w h old t m all.0 holds))

-- `Wal::new` on the directory that a stopped node leaves.
abbrev pub restart : Wal → Wal
restart w = wal_new w.files w.index

load-Holds :
    (w : Wal) (h : ℕ) (rs : List (LogType × Bytes))
    → 0 < h
    → All CanSave rs
    → Holds w h rs
    → load (restart w) ≡ ok rs
unfolding load wal_new
load-Holds w h [] pos all holds = ground arith
load-Holds w h ((t, m) ∷ rs) pos all holds = ground (
  arith,
  length-append (record_bytes t m) (file_of rs),
  length-record_bytes t m,
  parse_records-file_of ((t, m) ∷ rs) all,
  append-nil ((t, m) ∷ rs),
)

-- After a restart `load` gives the records that the file of the indexed height held before, and
-- those that were saved to it since, in order.
pub load-save_all :
    (w : Wal) (h : ℕ) (old rs : List (LogType × Bytes))
    → 0 < h
    → All CanSave (old ++ rs)
    → All CanSave rs
    → Holds w h old
    → load (restart (save_all h rs w)) ≡ ok (old ++ rs)
load-save_all w h old rs pos all all' holds =
    load-Holds (save_all h rs w) h (old ++ rs) pos all (save_all-Holds w h old rs all' holds)
