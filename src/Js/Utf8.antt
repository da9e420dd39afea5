-- ===== src/Js/Utf8.antt =====
-- `TextEncoder` and `TextDecoder`: UTF-16 code units and UTF-8 bytes (the WHATWG encoding standard).
mod Points
pub mod RoundTrip
use pdn_whatspac_client.Base.{
  ℕ, zero, suc, ◌+◌, ◌-◌, ◌*◌, ◌/◌, ◌%◌, Bool, ◌&&◌, ◌||◌, List, [], ◌∷◌, ◌++◌, Text, Bytes, ltb,
  leb, ◌==◌, if◌then◌else◌,
}
use pdn_whatspac_client.Js.Json.Strings.{is_high, is_low}

-- U+FFFD, which stands for what cannot be decoded.
abbrev pub replacement : ℕ
replacement = 0xfffd

-- The bytes of a code point, in front of `k`.
unfoldable pub encode_point : ℕ → Bytes → Bytes
encode_point p k =
    if ltb p 0x80
    then p ∷ k
    else if ltb p 0x800
    then (0xc0 + p / 64) ∷ (0x80 + p % 64) ∷ k
    else if ltb p 0x10000
    then (0xe0 + p / 4096) ∷ (0x80 + p / 64 % 64) ∷ (0x80 + p % 64) ∷ k
    else (0xf0 + p / 262144) ∷ (0x80 + p / 4096 % 64) ∷ (0x80 + p / 64 % 64) ∷ (0x80 + p % 64) ∷ k

abbrev pub pair_point : ℕ → ℕ → ℕ
pair_point high low = 0x10000 + (high - 0xd800) * 1024 + (low - 0xdc00)

-- A unit that is not the first of a pair; a surrogate becomes U+FFFD.
abbrev pub unit_point : ℕ → ℕ
unit_point c = if is_high c || is_low c then replacement else c

-- `new TextEncoder().encode(s)`.
unfoldable pub encode : Text → Bytes
encode [] = []
encode (c ∷ []) = encode_point (unit_point c) []
encode (c ∷ d ∷ s) =
    let pair = encode s in
    let rest = encode (d ∷ s) in
    if is_high c && is_low d
    then encode_point (pair_point c d) pair
    else encode_point (unit_point c) rest

-- Between two code points, or with some more bytes to come after the next one, which must lie
-- between two bounds, and the bits so far.
pub data Decoder : Type 0 where
  start : Decoder
  inside : ℕ → ℕ → ℕ → ℕ → Decoder

abbrev pub units : ℕ → Text
units p =
    if ltb p 0x10000
    then p ∷ []
    else (0xd800 + (p - 0x10000) / 1024) ∷ (0xdc00 + (p - 0x10000) % 1024) ∷ []

-- The first byte of a code point.
unfoldable pub first_byte : ℕ → Decoder × Text
first_byte b =
    if ltb b 0x80
    then (start, b ∷ [])
    else if ltb b 0xc2
    then (start, replacement ∷ [])
    else if ltb b 0xe0
    then (inside 0 0x80 0xbf (b - 0xc0), [])
    else if ltb b 0xf0
    then (
      inside 1 (if b == 0xe0 then 0xa0 else 0x80) (if b == 0xed then 0x9f else 0xbf) (b - 0xe0),
      [],
    )
    else if ltb b 0xf5
    then (
      inside 2 (if b == 0xf0 then 0x90 else 0x80) (if b == 0xf4 then 0x8f else 0xbf) (b - 0xf0),
      [],
    )
    else (start, replacement ∷ [])

continue : ℕ → ℕ → Decoder × Text
continue zero p = (start, units p)
continue (suc n) p = (inside n 0x80 0xbf p, [])

-- One byte: a byte that does not continue a code point is read again as a first byte.
unfoldable pub step : Decoder → ℕ → Decoder × Text
unfolding first_byte continue
step start b = first_byte b
step (inside n lower upper p) b =
    if leb lower b && leb b upper
    then continue n (p * 64 + (b - 0x80))
    else (let (d, out) = first_byte b in (d, replacement ∷ out))

unfoldable pub decode_from : Decoder → Bytes → Text
decode_from start [] = []
decode_from (inside n lower upper p) [] = replacement ∷ []
decode_from d (b ∷ bs) = let (d', out) = step d b in out ++ decode_from d' bs

-- A byte order mark at the front is dropped.
unfoldable pub strip_mark : Bytes → Bytes
strip_mark (a ∷ b ∷ c ∷ bs) = if a == 0xef && b == 0xbb && c == 0xbf then bs else a ∷ b ∷ c ∷ bs
strip_mark bs = bs

-- `new TextDecoder().decode(bytes)`.
unfoldable pub decode : Bytes → Text
unfolding decode_from step strip_mark
decode bs = decode_from start (strip_mark bs)
