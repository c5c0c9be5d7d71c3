-- ===== src/Framing.antt =====
-- The length-marked framing of src/utils.rs: `combine_two`, `extract_two`, `encode_block` and
-- `decode_block`.
pub mod Digits
pub mod RoundTrip
use bft_rs.Prelude.{
  ℕ, Option, none, some, List, [], ◌++◌, ◌+◌, BftResult, ok, err, panic, ◌>>=◌, decode_err, length,
  take, drop, ltb, leb, if◌then◌else◌, add64,
}
use bft_rs.Objects.{Bytes, Hash, Block}
use Digits.{to_be_bytes, from_be_bytes}

-- `slice::split_at`, which panics beyond the end.
abbrev pub split_at : Bytes → ℕ → BftResult (Bytes × Bytes)
split_at xs mid = if leb mid (length xs) then ok (take mid xs, drop mid xs) else panic

unfoldable pub combine_two : Bytes → Bytes → Bytes
combine_two first second = to_be_bytes 8 (length first) ++ (first ++ second)

-- `first_len + 8` is taken modulo 2 ^ 64.
unfoldable pub extract_two : Bytes → BftResult (Bytes × Bytes)
extract_two encode =
    let first_len = from_be_bytes (take 8 encode) in
    let mid = add64 first_len 8 in
    if ltb (length encode) 8
    then err decode_err
    else if ltb (length encode) mid
    then err decode_err
    else do (combine, two) ← split_at encode mid; (_, one) ← split_at combine 8; ok (one, two)

-- `get_proposal_hash` of src/lib.rs, with the hash function that it is given. An error of
-- `extract_two` gives `None`, a panic goes on.
unfoldable pub get_proposal_hash : Bytes → (Bytes → Hash) → BftResult (Option Hash)
unfolding extract_two
get_proposal_hash encode crypt_hash = elim (extract_two encode) [
  | ok (signed_proposal_encode, _) ↦ ok (some (crypt_hash signed_proposal_encode))
  | err e ↦ ok none
  | BftResult.panic ↦ panic
]

unfoldable pub encode_block : ℕ → Block → Hash → Bytes
encode_block height block block_hash = to_be_bytes 8 height ++ combine_two block_hash block

unfoldable pub decode_block : Bytes → BftResult (ℕ × Block × Hash)
decode_block encode = do
  (h, combine) ← split_at encode 8
  (block_hash, block) ← extract_two combine
  ok (from_be_bytes h, block, block_hash)
