-- ===== src/Codec/Items.antt =====
-- The access that the implementations make to an item: a list of a fixed number of fields.
use bft_rs.Prelude.{
  ℕ, List, [], ◌∷◌, Bool, Option, none, some, BftResult, ok, err, decode_err, ok_or, ◌>>=◌, length,
  get_elem?, ◌==◌, nat_eq, if◌then◌else◌,
}
use bft_rs.Objects.{Bytes}
use bft_rs.Env.{Env, Item, str, list, Items, nil, cons}
use mathlib.Core.Option

abbrev pub from_list : List Item → Items
from_list [] = nil
from_list (x ∷ xs) = cons x (from_list xs)

abbrev pub to_list : Items → List Item
to_list nil = []
to_list (cons x xs) = x ∷ to_list xs

-- `begin_list` and the `append` calls that fill it.
abbrev pub item_list : List Item → Item
item_list xs = list (from_list xs)

-- `prototype()` is `List(n)`.
abbrev pub fields : ℕ → Item → BftResult (List Item)
fields n (str b) = err decode_err
fields n (list xs) = if length (to_list xs) == n then ok (to_list xs) else err decode_err

abbrev pub val_at : List Item → ℕ → BftResult Item
val_at r i = ok_or decode_err (get_elem? r i)

-- The wrapper macro of src/lib.rs around `Vec<u8>`: `Address`, `Hash`, `Signature`, `Block`.
unfoldable pub bytes_item : Bytes → Item
bytes_item b = item_list (str b ∷ [])

unfoldable pub item_bytes : Item → BftResult Bytes
item_bytes t = do r ← fields 1 t; v ← val_at r 0; elim v [ str b ↦ ok b | list xs ↦ err decode_err ]

module _ ⦃env : Env⦄ where
  open env use {uint_item, item_uint, item_bool, option_item, item_option, rlp_items}

  abbrev pub u64_item : ℕ → Item
  u64_item n = uint_item n

  abbrev pub option_u64 : Option ℕ → Item
  option_u64 o = option_item (Option.map u64_item o)

  abbrev pub uint_at : ℕ → List Item → ℕ → BftResult ℕ
  uint_at bits r i = do t ← val_at r i; ok_or decode_err (item_uint bits t)

  abbrev pub u64_at : List Item → ℕ → BftResult ℕ
  u64_at = uint_at 64

  abbrev pub bool_at : List Item → ℕ → BftResult Bool
  bool_at r i = do t ← val_at r i; ok_or decode_err (item_bool t)

  abbrev pub bytes_at : List Item → ℕ → BftResult Bytes
  bytes_at r i = do t ← val_at r i; item_bytes t

  abbrev pub u64_of_option : Option Item → BftResult (Option ℕ)
  u64_of_option none = ok none
  u64_of_option (some t) = do n ← ok_or decode_err (item_uint 64 t); ok (some n)

  abbrev pub option_at : List Item → ℕ → BftResult (Option ℕ)
  option_at r i = do t ← val_at r i; o ← ok_or decode_err (item_option t); u64_of_option o

  abbrev pub decode_all : {A : Type 0} → (Item → BftResult A) → List Item → BftResult (List A)
  decode_all f [] = ok []
  decode_all f (t ∷ ts) = f t >>= λ a. decode_all f ts >>= λ rest. ok (a ∷ rest)

  -- `list_at`: every item that `Rlp::iter` yields is decoded.
  abbrev pub list_at : {A : Type 0} → (Item → BftResult A) → List Item → ℕ → BftResult (List A)
  list_at f r i = do t ← val_at r i; decode_all f (to_list (rlp_items t))
