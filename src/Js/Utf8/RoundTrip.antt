-- ===== src/Js/Utf8/RoundTrip.antt =====
-- Decoding gives back an encoded text that has no lone surrogate.
use pdn_whatspac_client.Base.{
  ℕ, ◌+◌, ◌/◌, ◌%◌, ◌<◌, ◌≤◌, ◌≡◌, ◌≢◌, ◌⊎◌, refl, ◌∙◌, inr, true, false, ◌||◌, [], ◌∷◌, Text,
  Bytes, All, arith,
}
use pdn_whatspac_client.Js.Json.Strings.{is_high, is_low}
use pdn_whatspac_client.Js.Utf8.Points.{decode-point}
use pdn_whatspac_client.Js.Utf8.{
  encode_point, pair_point, encode, start, units, decode_from, strip_mark, decode,
}

-- Text with no control character and no lone surrogate.
pub data IsPrinted : Text → Type 0 where
  nil : IsPrinted []
  unit :
      {c : ℕ} {s : Text}
      → 32 ≤ c
      → c < 65536
      → (is_high c || is_low c) ≡ false
      → IsPrinted s
      → IsPrinted (c ∷ s)
  pair :
      {c d : ℕ} {s : Text}
      → is_high c ≡ true
      → is_low d ≡ true
      → IsPrinted s
      → IsPrinted (c ∷ d ∷ s)

encode-unit :
    (c : ℕ) (s : Text)
    → (is_high c || is_low c) ≡ false
    → encode (c ∷ s) ≡ encode_point c (encode s)
unfolding encode
encode-unit c [] h = rw h
encode-unit c (d ∷ s) h = ground arith

encode-pair :
    (c d : ℕ) (s : Text)
    → is_high c ≡ true
    → is_low d ≡ true
    → encode (c ∷ d ∷ s) ≡ encode_point (pair_point c d) (encode s)
unfolding encode
encode-pair c d s h l = rw (h, l)

pair-units :
    (c d : ℕ)
    → is_high c ≡ true
    → is_low d ≡ true
    → (0x10000 ≤ pair_point c d)
      × (pair_point c d < 0x110000)
      × (units (pair_point c d) ≡ c ∷ d ∷ [])
pair-units c d h l = (ground arith, ground arith, ground arith)

unit-units : (c : ℕ) → c < 65536 → units c ≡ c ∷ []
unit-units c h = ground arith

not_surrogate : (c : ℕ) → (is_high c || is_low c) ≡ false → (c < 0xd800) ⊎ (0xe000 ≤ c)
not_surrogate c h = ground arith

decode_from-encode : {s : Text} → IsPrinted s → decode_from start (encode s) ≡ s
decode_from-encode nil = unfold decode_from encode in refl
decode_from-encode (unit {c} {s} l u n t) = rw (encode-unit c s n) (
    decode-point c (encode s) (omega arith) (not_surrogate c n)
    ∙ rw (unit-units c u, decode_from-encode t))
decode_from-encode (pair {c} {d} {s} h l t) =
    let (a, b, e) = pair-units c d h l in
    rw (encode-pair c d s h l) (
      decode-point (pair_point c d) (encode s) b (inr (omega arith)) ∙ rw (e, decode_from-encode t))

-- The text does not begin with a byte order mark.
abbrev pub NoMark : Text → Type 0
NoMark [] = Unit
NoMark (c ∷ s) = c ≢ 0xfeff

strip_mark-first : (a : ℕ) (k : Bytes) → a ≢ 0xef → strip_mark (a ∷ k) ≡ a ∷ k
unfolding strip_mark
strip_mark-first a [] h = refl
strip_mark-first a (b ∷ []) h = refl
strip_mark-first a (b ∷ c ∷ k) h = ground arith

strip_mark-point :
    (p : ℕ) (k : Bytes)
    → p < 0x110000
    → p ≢ 0xfeff
    → strip_mark (encode_point p k) ≡ encode_point p k
unfolding strip_mark encode_point
strip_mark-point p k h n =
    ground (arith, strip_mark-first p k, strip_mark-first (0xc0 + p / 64) ((0x80 + p % 64) ∷ k))

-- Decoding the bytes of a printed text gives back the text.
pub decode-encode : {s : Text} → IsPrinted s → NoMark s → decode (encode s) ≡ s
unfolding decode
decode-encode nil m = unfold encode in refl
decode-encode (unit {c} {s} l u n t) m =
    rw (encode-unit c s n, strip_mark-point c (encode s) (omega arith) m)
      (rw (← encode-unit c s n) (decode_from-encode (unit l u n t)))
decode-encode (pair {c} {d} {s} h l t) m =
    let (a, b, e) = pair-units c d h l in
    rw (encode-pair c d s h l, strip_mark-point (pair_point c d) (encode s) b (omega arith))
      (rw (← encode-pair c d s h l) (decode_from-encode (pair h l t)))

-- A byte that is no control character.
abbrev pub IsPrintedByte : ℕ → Type 0
IsPrintedByte b = (32 ≤ b) × (b < 256)

point-bytes :
    (p : ℕ) (k : Bytes)
    → 32 ≤ p
    → p < 0x110000
    → All IsPrintedByte k
    → All IsPrintedByte (encode_point p k)
unfolding encode_point
point-bytes p k l u h = ground arith

pub encode-bytes : {s : Text} → IsPrinted s → All IsPrintedByte (encode s)
encode-bytes nil = unfold encode in tt
encode-bytes (unit {c} {s} l u n t) =
    rw (encode-unit c s n) (point-bytes c (encode s) l (omega arith) (encode-bytes t))
encode-bytes (pair {c} {d} {s} h l t) =
    let (a, b, e) = pair-units c d h l in
    rw (encode-pair c d s h l)
      (point-bytes (pair_point c d) (encode s) (omega arith) b (encode-bytes t))

-- The last element, or `d` of no elements.
abbrev pub last : ℕ → Bytes → ℕ
last d [] = d
last d (b ∷ bs) = last b bs

point-last :
    (p d : ℕ) (k : Bytes)
    → p < 0x110000
    → ((e : ℕ) → e ≢ 0xc3 → last e k ≢ 0xc3)
    → last d (encode_point p k) ≢ 0xc3
unfolding encode_point
point-last p d k u h = ground (arith, h p, h (0x80 + p % 64))

-- No text ends with the byte 0xC3.
pub last-encode : {s : Text} (d : ℕ) → IsPrinted s → d ≢ 0xc3 → last d (encode s) ≢ 0xc3
last-encode d nil h = unfold encode in h
last-encode d (unit {c} {s} l u n t) h =
    rw (encode-unit c s n) (point-last c d (encode s) (omega arith) (λ e. last-encode e t))
last-encode d (pair {c} {d = x} {s} a b t) h =
    let (lo, hi, e) = pair-units c x a b in
    rw (encode-pair c x s a b) (point-last (pair_point c x) d (encode s) hi (λ e. last-encode e t))
