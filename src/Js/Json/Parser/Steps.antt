-- ===== src/Js/Json/Parser/Steps.antt =====
-- One step of the JSON reader for each way to write a value.
use pdn_whatspac_client.Base.{
  ℕ, suc, ◌≡◌, refl, inl, inr, Bool, true, false, Option, some, List, [], ◌∷◌, Text, ◌==◌,
  Bool-cases, arith,
}
use pdn_whatspac_client.Js.Json.{
  Json, null, bool, num, str, arr, obj, Items, nil, cons, Fields, end, field,
}
use pdn_whatspac_client.Js.Json.Strings.Laws.{IsUnits, read_string-escape}
use pdn_whatspac_client.Js.Json.Numbers.{read_num, is_digit, strip_zeros, write_num}
use pdn_whatspac_client.Js.Json.Numbers.Digits.{IsDigits}
use pdn_whatspac_client.Js.Json.Numbers.Laws.{
  IsBreak, is_negative_zero, write_num-unsigned, write_num-negative, write_num-zero,
  write_unsigned-digit, write_unsigned, read_num-write_unsigned,
}
use pdn_whatspac_client.Js.Json.Writer.{quoted, write, write_items}
use pdn_whatspac_client.Js.Json.Parser.{
  is_space, skip_space, expect, merge_keys, read_scalar, read_key, read_fields, read, items, fields,
}

-- The text begins with a character that the reader neither skips nor takes for the end.
pub record Head (t : Text) : Type 0 where
  pub first : ℕ
  pub others : Text
  pub split : t ≡ first ∷ others
  pub no_space : is_space first ≡ false
  pub no_end : (first == b']') ≡ false

pub skip_space-Head : {t : Text} → Head t → skip_space t ≡ t
unfolding skip_space
skip_space-Head h = rw (h.split, skip_space, h.no_space)

pub head : (c : ℕ) (s : Text) → is_space c ≡ false → (c == b']') ≡ false → Head (c ∷ s)
head c s a b = record { first = c; others = s; split = refl; no_space = a; no_end = b }

module _ (f : ℕ) (t : Text) {k : Text} where
  pub read_arr :
      {xs : Items} → Head t → items f t ≡ some (xs, k) → read (suc f) (b'[' ∷ t) ≡ some (arr xs, k)
  unfolding read
  read_arr h e = rw (skip_space-Head h) (rw (h.split, h.no_end) (rw (← h.split, e)))

  pub items_last :
      {x : Json} → read f t ≡ some (x, b']' ∷ k) → items (suc f) t ≡ some (cons x nil, k)
  unfolding read skip_space
  items_last e = rw e

  pub items_more :
      {x : Json} {xs : Items} {u : Text}
      → read f t ≡ some (x, b',' ∷ u)
      → Head u
      → items f u ≡ some (xs, k)
      → items (suc f) t ≡ some (cons x xs, k)
  unfolding read skip_space
  items_more e h i = rw e (rw (skip_space-Head h, i))

pub read_key-quoted :
    (key t : Text) → IsUnits key → Head t → read_key (quoted key (b':' ∷ t)) ≡ some (key, t)
unfolding read_key quoted expect skip_space
read_key-quoted key t h d = rw (read_string-escape key [] (b':' ∷ t) h) (rw (skip_space-Head d))

read_fields-quote :
    (more : Text → Option (Fields × Text)) (t k : Text) (fs : Fields)
    → more (34 ∷ t) ≡ some (fs, k)
    → merge_keys fs ≡ fs
    → read_fields more (34 ∷ t) ≡ some (obj fs, k)
unfolding read_fields
read_fields-quote more t k fs e m = rw (e, m)

module _ (f : ℕ) (t : Text) {k : Text} where
  pub read_obj :
      {fs : Fields}
      → fields f (34 ∷ t) ≡ some (fs, k)
      → merge_keys fs ≡ fs
      → read (suc f) (b'{' ∷ 34 ∷ t) ≡ some (obj fs, k)
  unfolding read skip_space
  read_obj e m = read_fields-quote (fields f) t k _ e m

  pub fields_last :
      {key : Text} {v : Json}
      → IsUnits key
      → Head t
      → read f t ≡ some (v, b'}' ∷ k)
      → fields (suc f) (quoted key (b':' ∷ t)) ≡ some (field key v end, k)
  unfolding read skip_space
  fields_last h d e = rw (read_key-quoted _ t h d, e)

  pub fields_more :
      {key : Text} {v : Json} {fs : Fields} {u : Text}
      → IsUnits key
      → Head t
      → read f t ≡ some (v, b',' ∷ 34 ∷ u)
      → fields f (34 ∷ u) ≡ some (fs, k)
      → fields (suc f) (quoted key (b':' ∷ t)) ≡ some (field key v fs, k)
  unfolding read skip_space
  fields_more h d e i = rw (read_key-quoted _ t h d, e, i)

abbrev pub IsNumber : Bool → ℕ → List ℕ → Type 0
IsNumber negative whole fraction =
    IsDigits fraction
    × (strip_zeros fraction ≡ fraction)
    × (is_negative_zero negative whole fraction ≡ false)

read_digit :
    (f c : ℕ) (s : Text) (u : ℕ × List ℕ × Text)
    → is_digit c ≡ true
    → read_num (c ∷ s) ≡ some u
    → read (suc f) (c ∷ s) ≡ some (num false u.0 u.1, u.2)
unfolding read read_scalar
read_digit f c s u d e = ground (arith, e)

read_minus :
    (f : ℕ) (s : Text) (u : ℕ × List ℕ × Text)
    → read_num s ≡ some u
    → read (suc f) (b'-' ∷ s) ≡ some (num true u.0 u.1, u.2)
unfolding read read_scalar
read_minus f s u e = rw e

pub read-write_num :
    (negative : Bool) (f whole : ℕ) (fraction : List ℕ) (k : Text)
    → IsNumber negative whole fraction
    → IsBreak k
    → read (suc f) (write_num negative whole fraction k) ≡ some (num negative whole fraction, k)
read-write_num false f whole fraction k (d, s, z) b =
    let (c, r, e, t) = write_unsigned-digit whole fraction k in
    rw (write_num-unsigned, e)
      (read_digit f c r (whole, fraction, k) t
        (rw (← e) (read_num-write_unsigned whole fraction k d s b)))
read-write_num true f whole fraction k (d, s, z) b =
    rw (write_num-negative whole fraction k z)
      (read_minus f _ (whole, fraction, k) (read_num-write_unsigned whole fraction k d s b))

pub read-quoted : (f : ℕ) (s k : Text) → IsUnits s → read (suc f) (quoted s k) ≡ some (str s, k)
unfolding read read_scalar quoted
read-quoted f s k h = rw (read_string-escape s [] k h)

write_unsigned-Head :
    (whole : ℕ) (fraction : List ℕ) (k : Text) → Head (write_unsigned whole fraction k)
write_unsigned-Head whole fraction k =
    let (c, r, e, t) = write_unsigned-digit whole fraction k in
    rw e (head c r (ground arith) (ground arith))

write_num-Head :
    (negative : Bool) (whole : ℕ) (fraction : List ℕ) (k : Text)
    → Head (write_num negative whole fraction k)
write_num-Head false whole fraction k = rw write_num-unsigned (write_unsigned-Head whole fraction k)
write_num-Head true whole fraction k = elim (Bool-cases (is_negative_zero true whole fraction)) [
  | inl naught ↦ rw (write_num-zero whole fraction k naught) (write_unsigned-Head whole fraction k)
  | inr other ↦ rw (write_num-negative whole fraction k other) (head b'-' _ refl refl)
]

pub write-Head : (v : Json) (k : Text) → Head (write v k)
unfolding write
write-Head null k = head b'n' _ refl refl
write-Head (bool true) k = head b't' _ refl refl
write-Head (bool false) k = head b'f' _ refl refl
write-Head (num n w f) k = write_num-Head n w f k
write-Head (str s) k = head 34 _ refl refl
write-Head (arr xs) k = head b'[' _ refl refl
write-Head (obj fs) k = head b'{' _ refl refl

pub write_items-Head : (x : Json) (xs : Items) (k : Text) → Head (write_items (cons x xs) k)
unfolding write_items
write_items-Head x nil k = write-Head x k
write_items-Head x (cons y ys) k = write-Head x _
