-- ===== src/Js/Json/Printed.antt =====
-- JSON text has no control character and no lone surrogate: it is safe between frame terminators.
use pdn_whatspac_client.Base.{
  ℕ, ◌+◌, ◌/◌, ◌%◌, ◌<◌, ◌≤◌, ◌≡◌, ◌⊎◌, inl, inr, Bool, true, false, ◌&&◌, ◌||◌, some, List, [],
  ◌∷◌, ◌++◌, Text, ltb, if◌then◌else◌, Bool-cases, Option-cases, arith,
}
use pdn_whatspac_client.Js.Json.{
  Json, null, bool, num, str, arr, obj, Items, nil, cons, Fields, end, field,
}
use pdn_whatspac_client.Js.Json.Strings.{
  is_high, is_low, hex_digit, unicode_escape, short_escape, escape_unit, escape,
}
use pdn_whatspac_client.Js.Json.Strings.Laws.{IsUnits}
use pdn_whatspac_client.Js.Json.Numbers.{digits, ascii_digits, write_nat, write_num}
use pdn_whatspac_client.Js.Json.Numbers.Digits.{IsDigits, digits_lem}
use pdn_whatspac_client.Js.Json.Writer.{quoted, write, write_items, write_fields, stringify}
use pdn_whatspac_client.Js.Json.Parser.RoundTrip.{IsValue, AreValues, AreFields}
use pdn_whatspac_client.Js.Utf8.RoundTrip.{IsPrinted, unit, pair}
use pdn_whatspac_client.Js.Utf8.RoundTrip

ascii : (c : ℕ) {k : Text} → 32 ≤ c → c < 128 → IsPrinted k → IsPrinted (c ∷ k)
ascii c l u t = unit l (omega arith) (ground arith) t

hex_digit-ascii : (d : ℕ) → d < 16 → (32 ≤ hex_digit d) × (hex_digit d < 128)
unfolding hex_digit
hex_digit-ascii d h = ground arith

hex-IsPrinted : (d : ℕ) {k : Text} → d < 16 → IsPrinted k → IsPrinted (hex_digit d ∷ k)
hex-IsPrinted d h t = let (l, u) = hex_digit-ascii d h in ascii (hex_digit d) l u t

unicode_escape-IsPrinted : (c : ℕ) {k : Text} → IsPrinted k → IsPrinted (unicode_escape c k)
unfolding unicode_escape
unicode_escape-IsPrinted c t = ascii b'\\' (omega arith) (omega arith) (
    ascii b'u' (omega arith) (omega arith) (
      hex-IsPrinted (c / 4096 % 16) (omega arith) (
        hex-IsPrinted (c / 256 % 16) (omega arith)
          (hex-IsPrinted (c / 16 % 16) (omega arith) (hex-IsPrinted (c % 16) (omega arith) t)))))

short_escape-ascii : (c e : ℕ) → short_escape c ≡ some e → (32 ≤ e) × (e < 128)
unfolding short_escape
short_escape-ascii c e h = ground arith

escape_unit-IsPrinted :
    (c : ℕ) {k : Text}
    → c < 65536
    → (is_high c || is_low c) ≡ false
    → IsPrinted k
    → IsPrinted (escape_unit c k)
unfolding escape_unit
escape_unit-IsPrinted c h n t = elim (Option-cases (short_escape c)) [
  | inr (e, q) ↦
      let (l, u) = short_escape-ascii c e q in
      rw (q, escape_unit) (ascii b'\\' (omega arith) (omega arith) (ascii e l u t))
  | inl q ↦ elim (Bool-cases (ltb c 32)) [
    | inl low ↦ rw (q, escape_unit, low) (unicode_escape-IsPrinted c t)
    | inr high ↦ rw (q, escape_unit, high) (unit (ground arith) h n t)
  ]
]

abbrev lone : ℕ → Text → Text
lone c k = if is_high c || is_low c then unicode_escape c k else escape_unit c k

lone-IsPrinted : (c : ℕ) {k : Text} → c < 65536 → IsPrinted k → IsPrinted (lone c k)
lone-IsPrinted c h t = elim (Bool-cases (is_high c || is_low c)) [
  | inl s ↦ rw s (unicode_escape-IsPrinted c t)
  | inr n ↦ rw n (escape_unit-IsPrinted c h n t)
]

pair-cases :
    (c d : ℕ) → ((is_high c ≡ true) × (is_low d ≡ true)) ⊎ ((is_high c && is_low d) ≡ false)
pair-cases c d = grind arith

escape-IsPrinted : (s : Text) {k : Text} → IsUnits s → IsPrinted k → IsPrinted (escape s k)
unfolding escape
escape-IsPrinted [] h t = t
escape-IsPrinted (c ∷ []) h t = lone-IsPrinted c h.0 t
escape-IsPrinted (c ∷ d ∷ s) h t = elim (pair-cases c d) [
  | inl p ↦ rw (p.0, p.1) (pair p.0 p.1 (escape-IsPrinted s h.1.1 t))
  | inr n ↦ rw n (lone-IsPrinted c h.0 (escape-IsPrinted (d ∷ s) h.1 t))
]

quoted-IsPrinted : (s : Text) {k : Text} → IsUnits s → IsPrinted k → IsPrinted (quoted s k)
unfolding quoted
quoted-IsPrinted s h t =
    ascii 34 (omega arith) (omega arith)
      (escape-IsPrinted s h (ascii 34 (omega arith) (omega arith) t))

ascii_digits-IsPrinted :
    (ds : List ℕ) {k : Text} → IsDigits ds → IsPrinted k → IsPrinted (ascii_digits ds ++ k)
ascii_digits-IsPrinted [] h t = t
ascii_digits-IsPrinted (d ∷ ds) h t =
    ascii (48 + d) (omega arith) (omega arith) (ascii_digits-IsPrinted ds h.1 t)

write_nat-IsPrinted : (n : ℕ) {k : Text} → IsPrinted k → IsPrinted (write_nat n k)
unfolding write_nat
write_nat-IsPrinted n t = ascii_digits-IsPrinted (digits n) (digits_lem n n (omega arith)) t

minus : (b : Bool) {k : Text} → IsPrinted k → IsPrinted (if b then b'-' ∷ k else k)
minus true t = ascii b'-' (omega arith) (omega arith) t
minus false t = t

write_num-IsPrinted :
    (negative : Bool) (whole : ℕ) (fraction : List ℕ) {k : Text}
    → IsDigits fraction
    → IsPrinted k
    → IsPrinted (write_num negative whole fraction k)
unfolding write_num
write_num-IsPrinted g w [] h t = minus _ (write_nat-IsPrinted w t)
write_num-IsPrinted g w (d ∷ ds) h t = minus g (
    write_nat-IsPrinted w
      (ascii b'.' (omega arith) (omega arith) (ascii_digits-IsPrinted (d ∷ ds) h t)))

letters :
    (a b c d : ℕ) {k : Text}
    → (32 ≤ a) × (a < 128) × (32 ≤ b) × (b < 128) × (32 ≤ c) × (c < 128) × (32 ≤ d) × (d < 128)
    → IsPrinted k
    → IsPrinted (a ∷ b ∷ c ∷ d ∷ k)
letters a b c d h t = ascii a h.0 h.1 (ascii b h.2 h.3 (ascii c h.4 h.5 (ascii d h.6 h.7 t)))

comma : {k : Text} → IsPrinted k → IsPrinted (b',' ∷ k)
comma t = ascii b',' (omega arith) (omega arith) t

colon : {k : Text} → IsPrinted k → IsPrinted (b':' ∷ k)
colon t = ascii b':' (omega arith) (omega arith) t

mutual
  unfolding write

  write-IsPrinted : (v : Json) {k : Text} → IsValue v → IsPrinted k → IsPrinted (write v k)
  write-IsPrinted null h t = letters b'n' b'u' b'l' b'l' (omega arith) t
  write-IsPrinted (bool true) h t = letters b't' b'r' b'u' b'e' (omega arith) t
  write-IsPrinted (bool false) h t =
      ascii b'f' (omega arith) (omega arith) (letters b'a' b'l' b's' b'e' (omega arith) t)
  write-IsPrinted (num g w d) h t = write_num-IsPrinted g w d h.0 t
  write-IsPrinted (str s) h t = quoted-IsPrinted s h t
  write-IsPrinted (arr xs) h t =
      ascii b'[' (omega arith) (omega arith)
        (write_items-IsPrinted xs h (ascii b']' (omega arith) (omega arith) t))
  write-IsPrinted (obj fs) h t =
      ascii b'{' (omega arith) (omega arith)
        (write_fields-IsPrinted fs h (ascii b'}' (omega arith) (omega arith) t))

  write_items-IsPrinted :
      (xs : Items) {k : Text} → AreValues xs → IsPrinted k → IsPrinted (write_items xs k)
  write_items-IsPrinted nil h t = t
  write_items-IsPrinted (cons x nil) h t = write-IsPrinted x h.0 t
  write_items-IsPrinted (cons x (cons y ys)) h t =
      write-IsPrinted x h.0 (comma (write_items-IsPrinted (cons y ys) h.1 t))

  write_fields-IsPrinted :
      (fs : Fields) {k : Text} → AreFields fs → IsPrinted k → IsPrinted (write_fields fs k)
  write_fields-IsPrinted end h t = t
  write_fields-IsPrinted (field key v end) h t =
      quoted-IsPrinted key h.0 (colon (write-IsPrinted v h.2 t))
  write_fields-IsPrinted (field key v (field key' w fs)) h t =
      quoted-IsPrinted key h.0
        (colon (write-IsPrinted v h.2 (comma (write_fields-IsPrinted (field key' w fs) h.3 t))))

-- The JSON text of a value is printed text.
pub stringify-IsPrinted : (v : Json) → IsValue v → IsPrinted (stringify v)
unfolding stringify
stringify-IsPrinted v h = write-IsPrinted v h RoundTrip.nil
