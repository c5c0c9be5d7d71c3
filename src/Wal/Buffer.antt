-- ===== src/Wal/Buffer.antt =====
-- `load` keeps one buffer for all its files.
use bft_rs.Prelude.{
  ℕ, ◌+◌, ◌<◌, ◌≤◌, ◌≡◌, refl, List, [], ◌∷◌, ◌++◌, ok, length, take, All, HashMap, arith,
  lookup_or, take-append, nat_eq,
}
use mathlib.Core.List.{append-nil}
use bft_rs.Objects.{Bytes, LogType}
use bft_rs.Wal.{Wal, load, load_files, parse_records}
use bft_rs.Wal.Records.{file_of}
use bft_rs.Wal.Files.{CanSave, parse_records-file_of}

-- One file that is not skipped.
load_file :
    (current h : ℕ) (files : HashMap ℕ Bytes) (hs : List ℕ) (vec_buf content : Bytes)
    (out rest : List (LogType × Bytes))
    → lookup_or h [] files ≡ content
    → current ≤ h
    → 5 < length content
    → parse_records (length content) (take (length content) (vec_buf ++ content)) ≡ ok out
    → load_files current files hs (vec_buf ++ content) ≡ ok rest
    → load_files current files (h ∷ hs) vec_buf ≡ ok (out ++ rest)
unfolding load_files
load_file current h files hs vec_buf content out rest read le long parsed others =
    rw (read, parsed, others) (ground arith)

-- Where the files of the log's height, above 0, and of the next are open and hold saved records, and
-- are of the same length, above five bytes, `load` gives the records of the first file twice, and
-- none of the second.
pub load_twice :
    (w : Wal) (h : ℕ) (xs ys : List (LogType × Bytes))
    → 0 < h
    → w.current_height ≡ h
    → w.height_fs ≡ h ∷ (h + 1) ∷ []
    → lookup_or h [] w.files ≡ file_of xs
    → lookup_or (h + 1) [] w.files ≡ file_of ys
    → All CanSave xs
    → 5 < length (file_of xs)
    → length (file_of ys) ≡ length (file_of xs)
    → load w ≡ ok (xs ++ xs)
unfolding load load_files
load_twice w h xs ys pos current open_files first second all long same =
    let all_read = parse_records-file_of xs all in
    let whole = rw append-nil at (take-append (file_of xs) []) in
    let none_left : load_files h w.files [] (file_of xs ++ file_of ys) ≡ ok [] = refl in
    let buf : parse_records (length (file_of ys))
          (take (length (file_of ys)) (file_of xs ++ file_of ys))
        ≡ ok xs =
      rw (same, take-append (file_of xs) (file_of ys)) (rw whole at all_read) in
    let two =
      load_file h (h + 1) w.files [] (file_of xs) (file_of ys) xs [] second (omega arith)
        (omega arith) buf none_left in
    let one =
      load_file h h w.files ((h + 1) ∷ []) [] (file_of xs) xs xs first (omega arith) long all_read
        (rw append-nil at two) in
    rw (current, open_files) (ground (arith, one))
