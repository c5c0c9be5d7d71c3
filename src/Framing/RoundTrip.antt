-- ===== src/Framing/RoundTrip.antt =====
-- About `combine_two`, `extract_two`, `encode_block` and `decode_block` of src/utils.rs.
use bft_rs.Prelude.{
  ℕ, zero, suc, ◌+◌, ◌-◌, ◌^◌, ◌<◌, ◌≤◌, ◌≡◌, refl, ap, some, [], ◌∷◌, ◌++◌, length, take, drop,
  arith, ok, err, panic, decode_err, length-append, take-append, drop-append, IsU64,
}
use bft_rs.Objects.{Bytes, Hash, Block}
use bft_rs.Framing.{combine_two, extract_two, encode_block, decode_block, get_proposal_hash}
use bft_rs.Framing.Digits.{
  to_be_bytes, from_be_bytes, length-to_be_bytes, from_be_bytes-to_be_bytes,
}

drop-take : (n m k : ℕ) (xs : Bytes) → k ≡ n + m → drop n (take k xs) ≡ take m (drop n xs)
drop-take zero m k xs e = ap (λ (j : ℕ). take j xs) (omega arith)
drop-take (suc n) m zero xs e = absurd (omega arith)
drop-take (suc n) zero (suc k) [] e = refl
drop-take (suc n) (suc m) (suc k) [] e = refl
drop-take (suc n) m (suc k) (x ∷ xs) e = drop-take n m k xs (omega arith)

drop-drop : (n m k : ℕ) (xs : Bytes) → k ≡ n + m → drop k xs ≡ drop m (drop n xs)
drop-drop zero m k xs e = ap (λ (j : ℕ). drop j xs) (omega arith)
drop-drop (suc n) m zero xs e = absurd (omega arith)
drop-drop (suc n) zero (suc k) [] e = refl
drop-drop (suc n) (suc m) (suc k) [] e = refl
drop-drop (suc n) m (suc k) (x ∷ xs) e = drop-drop n m k xs (omega arith)

length-take_le : (n : ℕ) (xs : Bytes) → n ≤ length xs → length (take n xs) ≡ n
length-take_le zero xs h = refl
length-take_le (suc n) [] h = absurd (omega arith)
length-take_le (suc n) (x ∷ xs) h = ap suc (length-take_le n xs (omega arith))

-- The cases of `extract_two` on eight bytes at least whose mark reads as `first_len`.
module _ (encode : Bytes) (first_len : ℕ) (len : 8 ≤ length encode) (small : IsU64 (length encode))
    (bound : IsU64 first_len) (mark : from_be_bytes (take 8 encode) ≡ first_len) where
  -- A frame of eight bytes at least whose mark stays within the rest is split there.
  extract_two_fits :
      first_len + 8 ≤ length encode
      → extract_two encode ≡ ok (take first_len (drop 8 encode), drop first_len (drop 8 encode))
  unfolding extract_two
  extract_two_fits fits = ground (
    arith,
    drop-take 8 first_len (first_len + 8) encode,
    drop-drop 8 first_len (first_len + 8) encode,
    length-take_le (first_len + 8) encode,
  )

  -- A frame whose mark goes beyond the rest, with no overflow, is a decode error.
  extract_two_short :
      length encode < first_len + 8 → first_len + 8 < 2 ^ 64 → extract_two encode ≡ err decode_err
  unfolding extract_two
  extract_two_short short below = ground arith

  -- On at least eight bytes, of a length below 2 ^ 64, whose mark is a 64-bit number within 8 of
  -- 2 ^ 64, `extract_two` panics: the sum with 8 wraps to less than 8 and passes the length test, and
  -- then the second `split_at` is beyond the end.
  pub extract_two_wraps : 2 ^ 64 ≤ first_len + 8 → extract_two encode ≡ panic
  unfolding extract_two
  extract_two_wraps wraps = ground (arith, length-take_le (first_len + 8 - 2 ^ 64) encode)

-- Less than eight bytes are a decode error.
extract_two_tiny : (encode : Bytes) → length encode < 8 → extract_two encode ≡ err decode_err
unfolding extract_two
extract_two_tiny encode tiny = ground arith

take_append_at : (n : ℕ) (xs ys : Bytes) → length xs ≡ n → take n (xs ++ ys) ≡ xs
take_append_at n xs ys e = rw (← e) (take-append xs ys)

drop_append_at : (n : ℕ) (xs ys : Bytes) → length xs ≡ n → drop n (xs ++ ys) ≡ ys
drop_append_at n xs ys e = rw (← e) (drop-append xs ys)

-- Two byte strings whose frame is shorter than 2 ^ 64 come back from the frame.
pub extract_two-combine_two :
    (first second : Bytes)
    → length first + length second + 8 < 2 ^ 64
    → extract_two (combine_two first second) ≡ ok (first, second)
unfolding combine_two
extract_two-combine_two first second fits =
    let n = length first in
    let frame = to_be_bytes 8 n ++ (first ++ second) in
    ground (
      arith,
      length-to_be_bytes 8 n,
      drop_append_at 8 (to_be_bytes 8 n) (first ++ second),
      take_append_at 8 (to_be_bytes 8 n) (first ++ second),
      length-append (to_be_bytes 8 n) (first ++ second),
      length-append first second,
      take-append first second,
      drop-append first second,
      from_be_bytes-to_be_bytes 8 n,
      extract_two_fits frame n,
    )

-- The log record of a block is read back.
decode_block-encode_block :
    (height : ℕ) (block : Block) (block_hash : Hash)
    → height < 2 ^ 64
    → length block_hash + length block + 8 < 2 ^ 64
    → decode_block (encode_block height block block_hash) ≡ ok (height, block, block_hash)
unfolding decode_block encode_block
decode_block-encode_block height block block_hash h fits =
    let mark = length-to_be_bytes 8 height in
    let rest = combine_two block_hash block in
    ground (
      arith,
      take_append_at 8 (to_be_bytes 8 height) rest mark,
      drop_append_at 8 (to_be_bytes 8 height) rest mark,
      length-append (to_be_bytes 8 height) rest,
      extract_two-combine_two block_hash block fits,
      from_be_bytes-to_be_bytes 8 height,
    )

-- `get_proposal_hash` on the frame of a proposal and a block gives the hash of the proposal's bytes.
get_proposal_hash-combine_two :
    (first second : Bytes) (crypt_hash : Bytes → Hash)
    → length first + length second + 8 < 2 ^ 64
    → get_proposal_hash (combine_two first second) crypt_hash ≡ ok (some (crypt_hash first))
unfolding get_proposal_hash
get_proposal_hash-combine_two first second crypt_hash fits =
    rw (get_proposal_hash, extract_two-combine_two first second fits) refl
