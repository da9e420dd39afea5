-- ===== src/Js/Json/Parser/RoundTrip.antt =====
-- `JSON.parse` gives back what `JSON.stringify` was given.
use pdn_whatspac_client.Base.{
  ℕ, zero, suc, ◌+◌, ◌<◌, ◌≤◌, ◌≡◌, refl, Bool, true, false, some, [], ◌∷◌, Text, length, arith,
}
use pdn_whatspac_client.Js.Json.{
  Json, null, bool, num, str, arr, obj, Items, nil, cons, Fields, end, field, has_key,
}
use pdn_whatspac_client.Js.Json.Strings.Laws.{IsUnits}
use pdn_whatspac_client.Js.Json.Strings.{escape}
use pdn_whatspac_client.Js.Json.Numbers.Laws.{IsBreak, length-write_num}
use pdn_whatspac_client.Js.Json.Writer.{quoted, write, write_items, write_fields, stringify}
use pdn_whatspac_client.Js.Json.Parser.{
  skip_space, expect, read_scalar, merge_keys, read, items, fields, parse,
}
use pdn_whatspac_client.Js.Json.Parser.Steps.{
  skip_space-Head, read_arr, items_last, items_more, read_obj, fields_last, fields_more,
  read-write_num, read-quoted, write-Head, write_items-Head, IsNumber,
}

-- The values that JSON text can hold: no field twice, code units in strings, and numbers in
-- their shortest form.
abbrev mutual
  pub IsValue : Json → Type 0
  IsValue null = Unit
  IsValue (bool b) = Unit
  IsValue (num negative whole fraction) = IsNumber negative whole fraction
  IsValue (str s) = IsUnits s
  IsValue (arr xs) = AreValues xs
  IsValue (obj fs) = AreFields fs

  pub AreValues : Items → Type 0
  AreValues nil = Unit
  AreValues (cons x xs) = IsValue x × AreValues xs

  pub AreFields : Fields → Type 0
  AreFields end = Unit
  AreFields (field key v fs) = IsUnits key × (has_key key fs ≡ false) × IsValue v × AreFields fs

mutual
  size : Json → ℕ
  size null = 1
  size (bool b) = 1
  size (num negative whole fraction) = 1
  size (str s) = 1
  size (arr xs) = suc (size_items xs)
  size (obj fs) = suc (size_fields fs)

  size_items : Items → ℕ
  size_items nil = 0
  size_items (cons x xs) = suc (size x + size_items xs)

  size_fields : Fields → ℕ
  size_fields end = 0
  size_fields (field key v fs) = suc (size v + size_fields fs)

merge_keys-AreFields : (fs : Fields) → AreFields fs → merge_keys fs ≡ fs
unfolding merge_keys
merge_keys-AreFields end h = refl
merge_keys-AreFields (field key v fs) h = rw (merge_keys-AreFields fs h.3) (rw h.1)

size-pos : (v : Json) → 0 < size v
unfolding size
size-pos null = omega arith
size-pos (num n w f) = omega arith
size-pos _ = omega arith

abbrev is_cons : Items → Bool
is_cons nil = false
is_cons (cons x xs) = true

abbrev is_field : Fields → Bool
is_field end = false
is_field (field key v fs) = true

write_fields-quote :
    (key : Text) (v : Json) (fs : Fields) (k : Text)
    → (u : Text) × (write_fields (field key v fs) k ≡ 34 ∷ u)
unfolding write_fields quoted
write_fields-quote key v end k = (_, refl)
write_fields-quote key v (field key' w fs) k = (_, refl)

read_empty_arr : (f : ℕ) (k : Text) → read (suc f) (write (arr nil) k) ≡ some (arr nil, k)
unfolding read write skip_space
read_empty_arr f k = refl

read_empty_obj : (f : ℕ) (k : Text) → read (suc f) (write (obj end) k) ≡ some (obj end, k)
unfolding read write skip_space
read_empty_obj f k = refl

read_word :
    (f : ℕ) (k : Text)
    → (read (suc f) (write null k) ≡ some (null, k))
      × (read (suc f) (write (bool true) k) ≡ some (bool true, k))
      × (read (suc f) (write (bool false) k) ≡ some (bool false, k))
unfolding read write read_scalar expect
read_word f k = (refl, refl, refl)

mutual
  unfolding write write_fields size

  read-write :
      (v : Json) (f : ℕ) (k : Text)
      → size v ≤ f
      → IsValue v
      → IsBreak k
      → read f (write v k) ≡ some (v, k)
  read-write null (suc f) k n h b = (read_word f k).0
  read-write (bool true) (suc f) k n h b = (read_word f k).1
  read-write (bool false) (suc f) k n h b = (read_word f k).2
  read-write (num g w d) (suc f) k n h b = read-write_num g f w d k h b
  read-write (str s) (suc f) k n h b = read-quoted f s k h
  read-write (arr nil) (suc f) k n h b = read_empty_arr f k
  read-write (arr (cons x xs)) (suc f) k n h b =
      read_arr f _ (write_items-Head x xs (b']' ∷ k))
        (items-write (cons x xs) f k (omega arith) h refl)
  read-write (obj end) (suc f) k n h b = read_empty_obj f k
  read-write (obj (field key v fs)) (suc f) k n h b =
      let (u, e) = write_fields-quote key v fs (b'}' ∷ k) in
      rw e (
        read_obj f _ (rw (← e) (fields-write (field key v fs) f k (omega arith) h refl))
          (merge_keys-AreFields (field key v fs) h))
  read-write v zero k n h b = absurd (omega (arith, size-pos v))

  items-write :
      (xs : Items) (f : ℕ) (k : Text)
      → size_items xs ≤ f
      → AreValues xs
      → is_cons xs ≡ true
      → items f (write_items xs (b']' ∷ k)) ≡ some (xs, k)
  items-write nil f k n h c = absurd (cc)
  items-write (cons x xs) zero k n h c = absurd (omega arith)
  items-write (cons x nil) (suc f) k n h c =
      items_last f _ (read-write x f (b']' ∷ k) (omega arith) h.0 refl)
  items-write (cons x (cons y ys)) (suc f) k n h c =
      items_more f _ (read-write x f _ (omega arith) h.0 refl) (write_items-Head y ys (b']' ∷ k))
        (items-write (cons y ys) f k (omega arith) h.1 refl)

  fields-write :
      (fs : Fields) (f : ℕ) (k : Text)
      → size_fields fs ≤ f
      → AreFields fs
      → is_field fs ≡ true
      → fields f (write_fields fs (b'}' ∷ k)) ≡ some (fs, k)
  fields-write end f k n h c = absurd (cc)
  fields-write (field key v fs) zero k n h c = absurd (omega arith)
  fields-write (field key v end) (suc f) k n h c =
      fields_last f _ h.0 (write-Head v (b'}' ∷ k))
        (read-write v f (b'}' ∷ k) (omega arith) h.2 refl)
  fields-write (field key v (field key' w fs)) (suc f) k n h c =
      let (u, e) = write_fields-quote key' w fs (b'}' ∷ k) in
      rw e (
        fields_more f _ h.0 (write-Head v _) (read-write v f _ (omega arith) h.2 refl)
          (rw (← e) (fields-write (field key' w fs) f k (omega arith) h.3 refl)))

length-escape : (s k : Text) → length k ≤ length (escape s k)
unfolding escape
length-escape [] k = omega arith
length-escape (c ∷ []) k = ground arith
length-escape (c ∷ d ∷ s) k = ground (arith, length-escape s k, length-escape (d ∷ s) k)

length-quoted : (s k : Text) → 2 + length k ≤ length (quoted s k)
unfolding quoted
length-quoted s k = omega (arith, length-escape s (34 ∷ k))

mutual
  unfolding write size

  -- The text of a value is at least as long as the value has parts.
  size-write : (v : Json) (k : Text) → size v + length k ≤ length (write v k)
  size-write null k = omega arith
  size-write (bool true) k = omega arith
  size-write (bool false) k = omega arith
  size-write (num g w d) k = omega (arith, length-write_num g w d k)
  size-write (str s) k = omega (arith, length-quoted s k)
  size-write (arr xs) k = omega (arith, size-write_items xs (b']' ∷ k))
  size-write (obj fs) k = omega (arith, size-write_fields fs (b'}' ∷ k))

  size-write_items :
      (xs : Items) (k : Text) → size_items xs + length k ≤ suc (length (write_items xs k))
  size-write_items nil k = omega arith
  size-write_items (cons x nil) k = omega (arith, size-write x k)
  size-write_items (cons x (cons y ys)) k =
      omega (arith, size-write x (b',' ∷ write_items (cons y ys) k), size-write_items (cons y ys) k)

  size-write_fields :
      (fs : Fields) (k : Text) → size_fields fs + length k ≤ suc (length (write_fields fs k))
  size-write_fields end k = omega arith
  size-write_fields (field key v end) k =
      omega (arith, length-quoted key (b':' ∷ write v k), size-write v k)
  size-write_fields (field key v (field key' w fs)) k =
      let rest = b',' ∷ write_fields (field key' w fs) k in
      omega (
        arith,
        length-quoted key (b':' ∷ write v rest),
        size-write v rest,
        size-write_fields (field key' w fs) k,
      )

-- Parsing the JSON text of a value gives back the value.
pub parse-stringify : (v : Json) → IsValue v → parse (stringify v) ≡ some v
unfolding parse stringify
parse-stringify v h = rw (
  skip_space-Head (write-Head v []),
  read-write v (suc (length (write v []))) [] (omega (arith, size-write v [])) h tt,
)
