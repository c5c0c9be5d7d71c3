-- ===== src/Wal.antt =====
-- The write-ahead log, src/wal.rs, over a directory of files that is kept as state. Calls of the
-- file system are taken to succeed.
pub mod Records
pub mod Files
pub mod Torn
pub mod Buffer
use bft_rs.Prelude.{
  ℕ, zero, suc, ◌+◌, ◌-◌, ◌%◌, ◌^◌, Bool, true, false, ◌||◌, Option, none, some, List, [], ◌∷◌,
  ◌++◌, BftResult, ok, panic, ◌>>=◌, HashMap, lookup, insert, lookup_or, or_insert, length, take,
  drop, ltb, leb, ◌==◌, nat_eq, if◌then◌else◌, add64, any, filterb, is_empty, get_elem?,
}
use bft_rs.Objects.{Bytes, LogType}
use bft_rs.Objects.Kinds.{log_type_to_u8, log_type_from_u8}
use bft_rs.Framing.Digits.{to_le_bytes, from_le_bytes}

abbrev pub delete_file_interval : ℕ
delete_file_interval = 3

-- `files` holds `<height>.log` by its height and `index` the number in the file `index`: the
-- directory. `height_fs` are the heights whose file is open, in ascending order.
pub record Wal : Type 0 where
  pub files : HashMap ℕ Bytes
  pub index : Option ℕ
  pub height_fs : List ℕ
  pub current_height : ℕ

-- A `BTreeMap` insertion, on the keys.
abbrev pub insert_height : ℕ → List ℕ → List ℕ
insert_height h [] = h ∷ []
insert_height h (k ∷ ks) =
    if ltb h k then h ∷ k ∷ ks else if h == k then k ∷ ks else k ∷ insert_height h ks

abbrev pub has_height : ℕ → List ℕ → Bool
has_height h ks = any (λ k. k == h) ks

-- Opening with `create` keeps what is there.
abbrev pub open_file : ℕ → HashMap ℕ Bytes → HashMap ℕ Bytes
open_file h files = or_insert h [] files

-- `Wal::new` on a directory: it opens the file of the height that `index` holds.
unfoldable pub wal_new : HashMap ℕ Bytes → Option ℕ → Wal
wal_new files index =
    let cur_height : ℕ = elim index [ none ↦ 0 | some h ↦ h ] in
    record {
      files = open_file cur_height files;
      index = index;
      height_fs = cur_height ∷ [];
      current_height = cur_height;
    }

-- `remove_file` of each height.
abbrev pub remove_files : List ℕ → HashMap ℕ Bytes → HashMap ℕ Bytes
remove_files hs [] = []
remove_files hs ((h, b) ∷ files) =
    if has_height h hs then remove_files hs files else (h, b) ∷ remove_files hs files

-- `Wal::set_height`
unfoldable pub set_height : ℕ → Wal → Wal
set_height height w =
    let files = open_file height w.files in
    let height_fs = insert_height height w.height_fs in
    let keep = height - delete_file_interval in
    let old = filterb (λ h. ltb h keep) height_fs in
    if ltb delete_file_interval height
    then record {
      files = remove_files old files;
      index = some height;
      height_fs = filterb (λ h. leb keep h) height_fs;
      current_height = height;
    }
    else record {
      files = files;
      index = some height;
      height_fs = height_fs;
      current_height = height;
    }

-- What `save` appends: the length as a little-endian `u32`, the type, the message.
unfoldable pub record_bytes : LogType → Bytes → Bytes
record_bytes mtype msg = to_le_bytes 4 (length msg % 2 ^ 32) ++ (log_type_to_u8 mtype ∷ msg)

-- The file of the next height is opened on demand.
unfoldable pub open_next : ℕ → Wal → Wal
open_next height w =
    if has_height height w.height_fs
    then w
    else if height == add64 w.current_height 1
    then record w { files = open_file height w.files; height_fs = insert_height height w.height_fs }
    else w

-- `Wal::save`
unfoldable pub save : ℕ → LogType → Bytes → Wal → Wal
unfolding open_next record_bytes
save height mtype msg w =
    let w' = open_next height w in
    let old = lookup_or height [] w'.files in
    if has_height height w'.height_fs
    then (if length msg % 2 ^ 32 == 0
        then w'
        else record w' { files = insert height (old ++ record_bytes mtype msg) w'.files })
    else w'

-- The loop of `load` over the first `fsize` bytes of the buffer, on fuel.
unfoldable pub parse_records : ℕ → Bytes → BftResult (List (LogType × Bytes))
parse_records zero buf = ok []
parse_records (suc fuel) buf =
    let bodylen = from_le_bytes (take 4 buf) in
    let mtype : ℕ = elim (get_elem? buf 4) [ none ↦ 0 | some b ↦ b ] in
    let more = (do
      t ← log_type_from_u8 mtype
      rest ← parse_records fuel (drop bodylen (drop 5 buf))
      ok ((t, take bodylen (drop 5 buf)) ∷ rest)) in
    if ltb (length buf) 5 then ok [] else if ltb (length buf) (5 + bodylen) then ok [] else more

-- The loop of `load` over the open files. `read_to_end` appends to `vec_buf`, which is not cleared
-- between two files, and the parse starts at its first byte.
unfoldable pub load_files :
    ℕ → HashMap ℕ Bytes → List ℕ → Bytes → BftResult (List (LogType × Bytes))
unfolding parse_records
load_files current files [] vec_buf = ok []
load_files current files (h ∷ hs) vec_buf =
    let content = lookup_or h [] files in
    let fsize = length content in
    let buf = vec_buf ++ content in
    let skip = load_files current files hs vec_buf in
    let more = (do
      out ← parse_records fsize (take fsize buf)
      rest ← load_files current files hs buf
      ok (out ++ rest)) in
    if ltb h current then skip else if leb fsize 5 then ok [] else more

-- `Wal::load`
unfoldable pub load : Wal → BftResult (List (LogType × Bytes))
unfolding load_files
load w =
    let out = load_files w.current_height w.files w.height_fs [] in
    if is_empty w.height_fs || (w.current_height == 0) then ok [] else out
