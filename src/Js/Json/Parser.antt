-- ===== src/Js/Json/Parser.antt =====
-- `JSON.parse`, with `none` for a SyntaxError.
pub mod Steps
pub mod RoundTrip
use pdn_whatspac_client.Base.{
  ℕ, zero, suc, Bool, true, false, ◌||◌, Option, none, some, List, [], ◌∷◌, ◌++◌, Text, codes,
  text_eq, length, ◌≡◌, refl, ◌==◌, if◌then◌else◌,
}
use pdn_whatspac_client.Js.Json.{
  Json, null, bool, num, str, arr, obj, Items, nil, cons, Fields, end, field, get, has_key,
}
use pdn_whatspac_client.Js.Json.Strings.{plain, read_string}
use pdn_whatspac_client.Js.Json.Numbers.{
  read_num, read_whole, read_fraction, read_exponent, scale, strip_zeros, span_digits, value_of,
  is_digit, ◌>>=◌,
}

abbrev pub is_space : ℕ → Bool
is_space c = c == 32 || c == 9 || c == 10 || c == 13

unfoldable pub skip_space : Text → Text
skip_space [] = []
skip_space (c ∷ s) = if is_space c then skip_space s else c ∷ s

-- The text behind an expected word.
unfoldable pub expect : Text → Text → Option Text
expect [] s = some s
expect (x ∷ w) [] = none
expect (x ∷ w) (c ∷ s) = if c == x then expect w s else none

drop_key : Text → Fields → Fields
drop_key key end = end
drop_key key (field k v fs) =
    let rest = drop_key key fs in if text_eq k key then rest else field k v rest

last_value : Json → Option Json → Json
last_value v none = v
last_value v (some w) = w

-- Of fields with one name the last value stays, at the place of the first.
unfoldable pub merge_keys : Fields → Fields
unfolding drop_key last_value has_key get
merge_keys end = end
merge_keys (field k v fs) =
    let rest = merge_keys fs in
    if has_key k rest then field k (last_value v (get k rest)) (drop_key k rest) else field k v rest

signed : Bool → Option (ℕ × List ℕ × Text) → Option (Json × Text)
signed negative none = none
signed negative (some (whole, fraction, rest)) = some (num negative whole fraction, rest)

word : Json → Option Text → Option (Json × Text)
word v none = none
word v (some rest) = some (v, rest)

-- A value that is no array and no object, by its first character.
unfoldable pub read_scalar : ℕ → Text → Option (Json × Text)
unfolding signed word
read_scalar c s =
    if c == 34
    then (do (t, rest) ← read_string plain [] s; some (str t, rest))
    else if c == b'-'
    then signed true (read_num s)
    else if is_digit c
    then signed false (read_num (c ∷ s))
    else if c == b'n'
    then word null (expect (codes "ull") s)
    else if c == b't'
    then word (bool true) (expect (codes "rue") s)
    else if c == b'f'
    then word (bool false) (expect (codes "alse") s)
    else none

-- Behind an item: a comma and one more item by `more`, or the end.
after_item : (Text → Option (Items × Text)) → Json → Text → Option (Items × Text)
after_item more x [] = none
after_item more x (c ∷ s) =
    if c == b','
    then (do (xs, rest) ← more (skip_space s); some (cons x xs, rest))
    else if c == b']'
    then some (cons x nil, s)
    else none

after_field : (Text → Option (Fields × Text)) → Text → Json → Text → Option (Fields × Text)
after_field more key v [] = none
after_field more key v (c ∷ s) =
    if c == b','
    then (do (fs, rest) ← more (skip_space s); some (field key v fs, rest))
    else if c == b'}'
    then some (field key v end, s)
    else none

-- `"key" :`, and what follows it.
unfoldable pub read_key : Text → Option (Text × Text)
read_key s = do
  t ← expect (34 ∷ []) s
  (key, u) ← read_string plain [] t
  rest ← expect (b':' ∷ []) (skip_space u)
  some (key, skip_space rest)

-- Behind `[` and `{`.
read_items : (Text → Option (Items × Text)) → Text → Option (Json × Text)
read_items more [] = none
read_items more (c ∷ s) =
    if c == b']' then some (arr nil, s) else (do (xs, rest) ← more (c ∷ s); some (arr xs, rest))

read_fields : (Text → Option (Fields × Text)) → Text → Option (Json × Text)
unfolding merge_keys
read_fields more [] = none
read_fields more (c ∷ s) =
    if c == b'}'
    then some (obj end, s)
    else (do (fs, rest) ← more (c ∷ s); some (obj (merge_keys fs), rest))

-- Each function takes a character at least, so the length of the text is enough fuel.
unfoldable mutual
  unfolding read_items read_fields after_item after_field

  pub read : ℕ → Text → Option (Json × Text)
  read zero s = none
  read (suc f) [] = none
  read (suc f) (c ∷ s) =
      if c == b'['
      then read_items (items f) (skip_space s)
      else if c == b'{'
      then read_fields (fields f) (skip_space s)
      else read_scalar c s

  pub items : ℕ → Text → Option (Items × Text)
  items zero s = none
  items (suc f) s = do (x, rest) ← read f s; after_item (items f) x (skip_space rest)

  pub fields : ℕ → Text → Option (Fields × Text)
  fields zero s = none
  fields (suc f) s = do
    (key, t) ← read_key s
    (v, rest) ← read f t
    after_field (fields f) key v (skip_space rest)

nothing_left : Json → Text → Option Json
nothing_left v [] = some v
nothing_left v (c ∷ s) = none

unfoldable pub parse : Text → Option Json
unfolding read nothing_left read_key read_scalar skip_space expect read_string read_num read_whole
    read_fraction read_exponent scale strip_zeros span_digits value_of text_eq
parse s = do (v, rest) ← read (suc (length s)) (skip_space s); nothing_left v (skip_space rest)
