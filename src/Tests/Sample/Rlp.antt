-- ===== src/Tests/Sample/Rlp.antt =====
-- A serialisation of items as tagged numbers, which is read back with fuel.
use bft_rs.Prelude.{
  ℕ, zero, suc, ◌+◌, ◌^◌, ◌<◌, ◌≤◌, ◌≡◌, refl, Bool, true, false, Option, none, some, [], ◌∷◌, ◌++◌,
  length, take, drop, ltb, if◌then◌else◌, nat_beq, arith, length-append, take-append, drop-append,
}
use bft_rs.Objects.{Bytes}
use bft_rs.Env.{Item, str, list, Items, nil, cons}

mutual
  pub enc_item : Item → Bytes → Bytes
  enc_item (str b) rest = 0 ∷ length b ∷ (b ++ rest)
  enc_item (list xs) rest = 1 ∷ enc xs rest

  -- The items, and then the rest.
  pub enc : Items → Bytes → Bytes
  enc nil rest = 2 ∷ rest
  enc (cons x xs) rest = enc_item x (enc xs rest)

abbrev after_list : Items → Option (Items × Bytes) → Option (Items × Bytes)
after_list ys none = none
after_list ys (some (xs, b)) = some (cons (list ys) xs, b)

abbrev after_str : Bytes → Option (Items × Bytes) → Option (Items × Bytes)
after_str s none = none
after_str s (some (xs, b)) = some (cons (str s) xs, b)

abbrev then_read :
    (Bytes → Option (Items × Bytes)) → Option (Items × Bytes) → Option (Items × Bytes)
then_read more none = none
then_read more (some (ys, b)) = after_list ys (more b)

pub read : ℕ → Bytes → Option (Items × Bytes)
read zero b = none
read (suc f) [] = none
read (suc f) (zero ∷ []) = none
read (suc f) (zero ∷ n ∷ b) = after_str (take n b) (read f (drop n b))
read (suc f) (suc zero ∷ b) = then_read (read f) (read f b)
read (suc f) (suc (suc t) ∷ b) = some (nil, b)

mutual
  pub size_item : Item → ℕ
  size_item (str b) = 1
  size_item (list xs) = 1 + size xs

  pub size : Items → ℕ
  size nil = 1
  size (cons x xs) = size_item x + size xs

mutual
  unfolding enc enc_item read size size_item

  read-enc_item :
      (x : Item) (xs : Items) (f : ℕ) (tail rest : Bytes)
      → ((g : ℕ) → size xs ≤ g → read g tail ≡ some (xs, rest))
      → size_item x + size xs ≤ f
      → read f (enc_item x tail) ≡ some (cons x xs, rest)
  read-enc_item (str b) xs zero tail rest more enough = absurd (omega arith)
  read-enc_item (str b) xs (suc f) tail rest more enough =
      ground (arith, take-append b tail, drop-append b tail, more f)
  read-enc_item (list ys) xs zero tail rest more enough = absurd (omega arith)
  read-enc_item (list ys) xs (suc f) tail rest more enough =
      rw (read-enc ys f tail (omega arith), more f (omega arith))

  read-enc :
      (xs : Items) (f : ℕ) (rest : Bytes) → size xs ≤ f → read f (enc xs rest) ≡ some (xs, rest)
  read-enc nil zero rest enough = absurd (omega arith)
  read-enc nil (suc f) rest enough = refl
  read-enc (cons x xs) f rest enough =
      read-enc_item x xs f (enc xs rest) rest (λ g. read-enc xs g rest) enough

mutual
  unfolding enc enc_item size size_item

  size_item-le :
      (x : Item) (n : ℕ) (tail : Bytes)
      → n ≤ length tail
      → size_item x + n ≤ length (enc_item x tail)
  size_item-le (str b) n tail h = omega (arith, length-append b tail)
  size_item-le (list ys) n tail h = omega (arith, size-le ys tail, size-le_add ys n tail h)

  size-le : (xs : Items) (rest : Bytes) → size xs ≤ length (enc xs rest)
  size-le nil rest = omega arith
  size-le (cons x xs) rest = size_item-le x (size xs) (enc xs rest) (size-le xs rest)

  size-le_add :
      (xs : Items) (n : ℕ) (rest : Bytes) → n ≤ length rest → size xs + n ≤ length (enc xs rest)
  size-le_add nil n rest h = omega arith
  size-le_add (cons x xs) n rest h =
      omega (arith, size_item-le x (size xs + n) (enc xs rest) (size-le_add xs n rest h))

unfoldable pub encode : Item → Bytes
unfolding enc enc_item
encode x = enc (cons x nil) []

abbrev single : Option (Items × Bytes) → Option Item
single (some (cons x nil, [])) = some x
single _ = none

unfoldable pub decode : Bytes → Option Item
unfolding read
decode b = single (read (length b) b)

pub decode-encode : (x : Item) → decode (encode x) ≡ some x
decode-encode x =
    let b = enc (cons x nil) [] in
    let back = read-enc (cons x nil) (length b) [] (size-le (cons x nil) []) in
    unfold decode encode in rw back refl

abbrev pub uint_item : ℕ → Item
uint_item n = str (n ∷ [])

abbrev pub item_uint : ℕ → Item → Option ℕ
item_uint bits (str (n ∷ [])) = if ltb n (2 ^ bits) then some n else none
item_uint bits _ = none

pub uint_back : (bits n : ℕ) → n < 2 ^ bits → item_uint bits (uint_item n) ≡ some n
uint_back bits n h = ground arith

abbrev pub bool_item : Bool → Item
bool_item true = str (1 ∷ [])
bool_item false = str (0 ∷ [])

abbrev pub item_bool : Item → Option Bool
item_bool (str (n ∷ [])) = if nat_beq n 1 then some true else some false
item_bool _ = none

pub bool_back : (b : Bool) → item_bool (bool_item b) ≡ some b
bool_back true = refl
bool_back false = refl

abbrev pub option_item : Option Item → Item
option_item none = list nil
option_item (some x) = list (cons x nil)

abbrev pub item_option : Item → Option (Option Item)
item_option (list nil) = some none
item_option (list (cons x nil)) = some (some x)
item_option _ = none

pub option_back : (o : Option Item) → item_option (option_item o) ≡ some o
option_back none = refl
option_back (some x) = refl

abbrev pub items_of : Item → Items
items_of (str b) = nil
items_of (list xs) = xs
