-- ===== src/Js/Utf8/Points.antt =====
-- The decoder on the bytes of one code point.
use pdn_whatspac_client.Base.{
  ℕ, suc, ◌+◌, ◌*◌, ◌/◌, ◌%◌, ◌<◌, ◌≤◌, ◌≡◌, ◌⊎◌, ap, ◌∙◌, [], ◌∷◌, ◌++◌, Bytes, ◌==◌,
  if◌then◌else◌, arith,
}
use pdn_whatspac_client.Js.Utf8.{
  encode_point, Decoder, start, inside, units, first_byte, step, decode_from,
}

first_byte_two : (q : ℕ) → 2 ≤ q → q < 32 → first_byte (0xc0 + q) ≡ (inside 0 0x80 0xbf q, [])
unfolding first_byte
first_byte_two q a b = ground arith

abbrev lower_bound : ℕ → ℕ → ℕ → ℕ
lower_bound at q bound = if q == at then bound else 0x80

abbrev upper_bound : ℕ → ℕ → ℕ → ℕ
upper_bound at q bound = if q == at then bound else 0xbf

first_byte_three :
    (q : ℕ)
    → q < 16
    → first_byte (0xe0 + q) ≡ (inside 1 (lower_bound 0 q 0xa0) (upper_bound 13 q 0x9f) q, [])
unfolding first_byte
first_byte_three q a = ground arith

first_byte_four :
    (q : ℕ)
    → q < 5
    → first_byte (0xf0 + q) ≡ (inside 2 (lower_bound 0 q 0x90) (upper_bound 4 q 0x8f) q, [])
unfolding first_byte
first_byte_four q a = ground arith

decode_lead :
    (b : ℕ) (k : Bytes) (d : Decoder)
    → first_byte b ≡ (d, [])
    → decode_from start (b ∷ k) ≡ decode_from d k
unfolding decode_from step
decode_lead b k d e = rw (e)

decode_last :
    (lower upper p x : ℕ) (k : Bytes)
    → lower ≤ 0x80 + x
    → 0x80 + x ≤ upper
    → decode_from (inside 0 lower upper p) ((0x80 + x) ∷ k)
      ≡ units (p * 64 + x) ++ decode_from start k
unfolding decode_from step
decode_last lower upper p x k l u = ground arith

decode_more :
    (n lower upper p x : ℕ) (k : Bytes)
    → lower ≤ 0x80 + x
    → 0x80 + x ≤ upper
    → decode_from (inside (suc n) lower upper p) ((0x80 + x) ∷ k)
      ≡ decode_from (inside n 0x80 0xbf (p * 64 + x)) k
unfolding decode_from step
decode_more n lower upper p x k l u = ground arith

decode_one : (p : ℕ) (k : Bytes) → p < 0x80 → decode_from start (p ∷ k) ≡ p ∷ decode_from start k
unfolding decode_from step first_byte
decode_one p k h = ground arith

decode_two :
    (p : ℕ) (k : Bytes)
    → 0x80 ≤ p
    → p < 0x800
    → decode_from start ((0xc0 + p / 64) ∷ (0x80 + p % 64) ∷ k) ≡ units p ++ decode_from start k
decode_two p k a b =
    decode_lead _ _ _ (first_byte_two (p / 64) (omega arith) (omega arith))
    ∙ decode_last 0x80 0xbf (p / 64) (p % 64) k (omega arith) (omega arith)
    ∙ ap (λ u. units u ++ decode_from start k) (omega arith)

decode_three :
    (p : ℕ) (k : Bytes)
    → 0x800 ≤ p
    → p < 0x10000
    → (p < 0xd800) ⊎ (0xe000 ≤ p)
    → decode_from start ((0xe0 + p / 4096) ∷ (0x80 + p / 64 % 64) ∷ (0x80 + p % 64) ∷ k)
      ≡ units p ++ decode_from start k
decode_three p k a b s =
    decode_lead _ _ _ (first_byte_three (p / 4096) (omega arith))
    ∙ decode_more 0 _ _ (p / 4096) (p / 64 % 64) _ (ground arith) (ground arith)
    ∙ decode_last 0x80 0xbf (p / 4096 * 64 + p / 64 % 64) (p % 64) k (omega arith) (omega arith)
    ∙ ap (λ u. units u ++ decode_from start k) (omega arith)

decode_four :
    (p : ℕ) (k : Bytes)
    → 0x10000 ≤ p
    → p < 0x110000
    → decode_from start
        ((0xf0 + p / 262144) ∷ (0x80 + p / 4096 % 64) ∷ (0x80 + p / 64 % 64) ∷ (0x80 + p % 64) ∷ k)
      ≡ units p ++ decode_from start k
decode_four p k a b =
    decode_lead _ _ _ (first_byte_four (p / 262144) (omega arith))
    ∙ decode_more 1 _ _ (p / 262144) (p / 4096 % 64) _ (ground arith) (ground arith)
    ∙ decode_more 0 0x80 0xbf (p / 262144 * 64 + p / 4096 % 64) (p / 64 % 64) _ (omega arith)
        (omega arith)
    ∙ decode_last 0x80 0xbf ((p / 262144 * 64 + p / 4096 % 64) * 64 + p / 64 % 64) (p % 64) k
        (omega arith) (omega arith)
    ∙ ap (λ u. units u ++ decode_from start k) (omega arith)

pub decode-point :
    (p : ℕ) (k : Bytes)
    → p < 0x110000
    → (p < 0xd800) ⊎ (0xe000 ≤ p)
    → decode_from start (encode_point p k) ≡ units p ++ decode_from start k
unfolding encode_point
decode-point p k h s =
    ground (arith, decode_one p k, decode_two p k, decode_three p k, decode_four p k)
