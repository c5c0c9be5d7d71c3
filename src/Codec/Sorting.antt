-- ===== src/Codec/Sorting.antt =====
-- The order in which the votes of a proof are written: `Vec::sort` on pairs.
use bft_rs.Prelude.{List, [], ◌∷◌, Bool, if◌then◌else◌, ◌==◌, list_eq}
use bft_rs.Objects.{Bytes}
use bft_rs.Objects.Authority.{bytes_leb}

abbrev pub pair_leb : Bytes × Bytes → Bytes × Bytes → Bool
pair_leb (a, s) (b, t) = if a == b then bytes_leb s t else bytes_leb a b

abbrev pub insert_pair : Bytes × Bytes → List (Bytes × Bytes) → List (Bytes × Bytes)
insert_pair p [] = p ∷ []
insert_pair p (q ∷ qs) = if pair_leb p q then p ∷ q ∷ qs else q ∷ insert_pair p qs

unfoldable pub sort_pairs : List (Bytes × Bytes) → List (Bytes × Bytes)
sort_pairs [] = []
sort_pairs (p ∷ ps) = insert_pair p (sort_pairs ps)
