-- ===== src/Js/Json/Strings.antt =====
-- JSON strings: the escapes of `JSON.stringify`, and the strings that `JSON.parse` reads.
pub mod Laws
use pdn_whatspac_client.Base.{
  ℕ, zero, suc, ◌+◌, ◌-◌, ◌*◌, ◌/◌, ◌%◌, Bool, true, false, ◌&&◌, ◌||◌, Option, none, some, List,
  [], ◌∷◌, ◌++◌, Text, ltb, leb, ◌==◌, if◌then◌else◌,
}

-- UTF-16 surrogates.
abbrev pub is_high : ℕ → Bool
is_high c = leb 0xd800 c && ltb c 0xdc00

abbrev pub is_low : ℕ → Bool
is_low c = leb 0xdc00 c && ltb c 0xe000

unfoldable pub hex_digit : ℕ → ℕ
hex_digit d = if ltb d 10 then 48 + d else 87 + d

-- `\uXXXX`, in front of `k`.
unfoldable pub unicode_escape : ℕ → Text → Text
unfolding hex_digit
unicode_escape c k =
    b'\\'
    ∷ b'u'
    ∷ hex_digit (c / 4096 % 16)
    ∷ hex_digit (c / 256 % 16)
    ∷ hex_digit (c / 16 % 16)
    ∷ hex_digit (c % 16)
    ∷ k

-- The letter of a two-character escape.
unfoldable pub short_escape : ℕ → Option ℕ
short_escape c =
    if c == 8
    then some b'b'
    else if c == 9
    then some b't'
    else if c == 10
    then some b'n'
    else if c == 12
    then some b'f'
    else if c == 13
    then some b'r'
    else if c == 34
    then some 34
    else if c == 92
    then some 92
    else none

-- One code unit that is no surrogate, in front of `k`.
unfoldable pub escape_unit : ℕ → Text → Text
unfolding short_escape unicode_escape
escape_unit c k = elim (short_escape c) [
  | some e ↦ b'\\' ∷ e ∷ k
  | none ↦ if ltb c 32 then unicode_escape c k else c ∷ k
]

-- A string between its quotes, in front of `k`. A surrogate that has no partner is escaped.
unfoldable pub escape : Text → Text → Text
unfolding escape_unit
escape [] k = k
escape (c ∷ []) k = if is_high c || is_low c then unicode_escape c k else escape_unit c k
escape (c ∷ d ∷ s) k =
    let pair = escape s k in
    let rest = escape (d ∷ s) k in
    if is_high c && is_low d
    then c ∷ d ∷ pair
    else if is_high c || is_low c
    then unicode_escape c rest
    else escape_unit c rest

-- The value of a hexadecimal digit.
unfoldable pub hex_value : ℕ → Option ℕ
hex_value c =
    if leb b'0' c && leb c b'9'
    then some (c - 48)
    else if leb b'a' c && leb c b'f'
    then some (c - 87)
    else if leb b'A' c && leb c b'F'
    then some (c - 55)
    else none

unfoldable pub short_unescape : ℕ → Option ℕ
short_unescape c =
    if c == b'b'
    then some 8
    else if c == b't'
    then some 9
    else if c == b'n'
    then some 10
    else if c == b'f'
    then some 12
    else if c == b'r'
    then some 13
    else if c == 34
    then some 34
    else if c == 92
    then some 92
    else if c == b'/'
    then some b'/'
    else none

-- Where the reader stands in a string: in plain text, behind a backslash, or in `\u` with as many
-- more digits to come after the next one and a value so far.
pub data Place : Type 0 where
  plain : Place
  slash : Place
  hex : ℕ → ℕ → Place

pub data Move : Type 0 where
  bad : Move
  done : Move
  skip : Place → Move
  emit : ℕ → Move

hex_move : ℕ → ℕ → ℕ → Move
hex_move zero acc d = emit (acc * 16 + d)
hex_move (suc n) acc d = skip (hex n (acc * 16 + d))

unfoldable pub move : Place → ℕ → Move
unfolding hex_value short_unescape hex_move
move plain c =
    if c == 34 then done else if c == 92 then skip slash else if ltb c 32 then bad else emit c
move slash c =
    if c == b'u' then skip (hex 3 0) else elim (short_unescape c) [ none ↦ bad | some u ↦ emit u ]
move (hex n acc) c = elim (hex_value c) [ none ↦ bad | some d ↦ hex_move n acc d ]

-- The rest of a string behind its first quote: its text, and what follows the last quote.
unfoldable pub read_string : Place → Text → Text → Option (Text × Text)
unfolding move
read_string p out [] = none
read_string p out (c ∷ s) = elim (move p c) [
  | bad ↦ none
  | done ↦ some (out, s)
  | skip q ↦ read_string q out s
  | emit u ↦ read_string plain (out ++ u ∷ []) s
]
