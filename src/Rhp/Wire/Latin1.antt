-- ===== src/Rhp/Wire/Latin1.antt =====
-- The `data` strings of src/rhp/wire.ts carry every byte sequence unchanged.
use pdn_whatspac_client.Base.{
  ℕ, zero, suc, ◌+◌, ◌%◌, ◌<◌, ◌≤◌, ◌≡◌, refl, sym, ap, ◌∙◌, inl, inr, [], ◌∷◌, ◌++◌, map,
  append-nil, append_assoc, Bytes, Text, length, take, drop, take-append-drop, drop-drop, drop_all,
  All, ltb, Bool-cases, arith,
}
use mathlib.Core.List.{map-append}
use pdn_whatspac_client.Rhp.Wire.{
  from_char_code, wire_chunks, chunk_size, bytes_to_wire_string, wire_string_to_bytes,
}

-- Every element is a byte.
abbrev pub IsBytes : Bytes → Type 0
IsBytes = All (λ b. b < 256)

from_char_code-IsBytes : (bs : Bytes) → IsBytes bs → from_char_code bs ≡ bs
from_char_code-IsBytes [] h = refl
from_char_code-IsBytes (b ∷ bs) h =
    let e : b % 65536 ≡ b = omega arith in rw (e, from_char_code-IsBytes bs h.1)

take-drop : (i n : ℕ) (bs : Bytes) → take n (drop i bs) ++ drop (i + n) bs ≡ drop i bs
take-drop i n bs = rw (← drop-drop i n (i + n) bs refl) (take-append-drop n (drop i bs))

wire_chunks-all :
    (chunk fuel : ℕ) (bs : Bytes) (i : ℕ) (out : Text)
    → 0 < chunk
    → length bs ≤ i + fuel
    → wire_chunks chunk fuel bs i out ≡ out ++ from_char_code (drop i bs)
unfolding wire_chunks
wire_chunks-all chunk zero bs i out c h = rw (drop_all i bs (omega arith)) (sym (append-nil out))
wire_chunks-all chunk (suc f) bs i out c h = elim (Bool-cases (ltb i (length bs))) [
  | inl more ↦
      rw (more, wire_chunks)
        (wire_chunks-all chunk f bs (i + chunk) _ c (omega arith)
          ∙ append_assoc out _ _
          ∙ ap (◌++◌ out) (
              sym (map-append (λ u. u % 65536) (take chunk (drop i bs)) (drop (i + chunk) bs))
              ∙ ap from_char_code (take-drop i chunk bs)))
  | inr done ↦
      rw (done, wire_chunks) (rw (drop_all i bs (ground (arith, done))) (sym (append-nil out)))
]

-- The chunked loop builds the same string as one call on all the bytes.
pub bytes_to_wire_string-eq : (bs : Bytes) → bytes_to_wire_string bs ≡ from_char_code bs
unfolding bytes_to_wire_string
bytes_to_wire_string-eq [] = refl
bytes_to_wire_string-eq (b ∷ bs) =
    ground (arith, wire_chunks-all chunk_size (length (b ∷ bs)) (b ∷ bs) 0 [])

map-mod-mod : (bs : Bytes) → IsBytes bs → map (λ u. u % 256) bs ≡ bs
map-mod-mod [] h = refl
map-mod-mod (b ∷ bs) h = let e : b % 256 ≡ b = omega arith in rw (e, map-mod-mod bs h.1)

-- Decoding the `data` string of any bytes gives back those bytes.
pub wire_string_to_bytes-bytes_to_wire_string :
    (bs : Bytes) → IsBytes bs → wire_string_to_bytes (bytes_to_wire_string bs) ≡ bs
unfolding wire_string_to_bytes
wire_string_to_bytes-bytes_to_wire_string bs h =
    rw (bytes_to_wire_string-eq, from_char_code-IsBytes bs h) (map-mod-mod bs h)
