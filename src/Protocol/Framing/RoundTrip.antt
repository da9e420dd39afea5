-- ===== src/Protocol/Framing/RoundTrip.antt =====
-- A payload decodes to the JSON text that it was made of, whichever form was chosen.
use pdn_whatspac_client.Base.{
  ℕ, suc, ◌+◌, ◌-◌, ◌≡◌, ◌≢◌, refl, ◌∙◌, inl, inr, true, false, some, [], ◌∷◌, ◌++◌, Text, Bytes,
  length, get_or, take, length-append, take-append_self, All, All-append, ltb, leb, Bool-cases,
  arith,
}
use pdn_whatspac_client.Js.Base64.{bytes_to_base64, base64_to_bytes}
use pdn_whatspac_client.Js.Base64.RoundTrip.{
  base64_to_bytes-bytes_to_base64, bytes_to_base64-printed,
}
use pdn_whatspac_client.Js.Utf8.{encode, decode}
use pdn_whatspac_client.Js.Utf8.RoundTrip.{
  IsPrinted, NoMark, IsPrintedByte, last, decode-encode, encode-bytes, last-encode,
}
use pdn_whatspac_client.Protocol.Pako.{Pako, IsZlib}
use pdn_whatspac_client.Protocol.Framing.{
  marker, encode_payload, is_compressed, decode_payload_text,
}

get_or-last : (b : ℕ) (bs : Bytes) → get_or (b ∷ bs) (length bs) 0 ≡ last b bs
get_or-last b [] = refl
get_or-last b (c ∷ bs) = get_or-last c bs

get_or-append : (bs : Bytes) (b : ℕ) → get_or (bs ++ b ∷ []) (length bs) 0 ≡ b
get_or-append [] b = refl
get_or-append (c ∷ bs) b = get_or-append bs b

-- A compressed payload is recognised.
is_compressed_marked : (bs : Bytes) → is_compressed (marker ∷ (bs ++ marker ∷ [])) ≡ true
unfolding is_compressed
is_compressed_marked bs =
    let n : suc (length (bs ++ marker ∷ [])) - 1 ≡ suc (length bs) =
      omega (arith, length-append bs (marker ∷ [])) in
    let l : leb 2 (suc (length (bs ++ marker ∷ []))) ≡ true =
      ground (arith, length-append bs (marker ∷ [])) in
    rw (l, n, get_or-append bs marker)

is_compressed-last : (bs : Bytes) → last 0 bs ≢ marker → is_compressed bs ≡ false
unfolding is_compressed
is_compressed-last [] h = refl
is_compressed-last (b ∷ bs) h =
    let n : suc (length bs) - 1 ≡ length bs = omega arith in rw (n, get_or-last b bs) (ground arith)

middle : (bs : Bytes) → take (length (bs ++ marker ∷ []) - 1) (bs ++ marker ∷ []) ≡ bs
middle bs =
    let n : length (bs ++ marker ∷ []) - 1 ≡ length bs =
      omega (arith, length-append bs (marker ∷ [])) in
    rw n (take-append_self bs (marker ∷ []))

module _ (pako : Pako) where
  decode_payload_text_nil : decode_payload_text pako [] ≡ some []
  unfolding decode_payload_text decode
  decode_payload_text_nil = refl

  decode_payload_text_marked :
      (bs : Bytes)
      → decode_payload_text pako (marker ∷ (bs ++ marker ∷ [])) ≡ pako.inflate (base64_to_bytes bs)
  unfolding decode_payload_text
  decode_payload_text_marked bs =
      let n : suc (length (bs ++ marker ∷ [])) - 2 ≡ length (bs ++ marker ∷ []) - 1 = omega arith in
      rw (is_compressed_marked bs) (rw (n, middle bs))

  decode_payload_text-encode :
      (s : Text) → IsPrinted s → NoMark s → decode_payload_text pako (encode s) ≡ some s
  unfolding decode_payload_text
  decode_payload_text-encode s t m =
      rw (is_compressed-last (encode s) (last-encode 0 t (omega arith)), decode-encode t m)

module _ (pako : Pako) (zlib : IsZlib pako) (json : Text) (t : IsPrinted json) where
  -- A text with no control character, no lone surrogate and no byte order mark in front comes back,
  -- compressed or not, where pako keeps zlib's promise.
  pub decode_payload_text-encode_payload :
      NoMark json → decode_payload_text pako (encode_payload pako json) ≡ some json
  unfolding encode_payload
  decode_payload_text-encode_payload m =
      elim (Bool-cases (ltb (length (bytes_to_base64 (pako.deflate json)) + 2) (length json))) [
        | inl shorter ↦ rw shorter (
            decode_payload_text_marked pako (bytes_to_base64 (pako.deflate json))
            ∙ rw (base64_to_bytes-bytes_to_base64 (pako.deflate json) (zlib.bytes json))
                (zlib.inflates json t))
        | inr plain ↦ rw plain (decode_payload_text-encode pako json t m)
      ]

  -- A payload holds bytes, and no control character: the terminator does not stand in it.
  pub encode_payload-bytes : All IsPrintedByte (encode_payload pako json)
  unfolding encode_payload
  encode_payload-bytes =
      elim (Bool-cases (ltb (length (bytes_to_base64 (pako.deflate json)) + 2) (length json))) [
        | inl shorter ↦ rw shorter (
          (omega arith, omega arith),
          All-append IsPrintedByte _ (marker ∷ [])
              (bytes_to_base64-printed (pako.deflate json) (zlib.bytes json)) (omega arith),
        )
        | inr plain ↦ rw plain (encode-bytes t)
      ]

  pub encode_payload-ne-nil : NoMark json → json ≢ [] → encode_payload pako json ≢ []
  encode_payload-ne-nil m n e =
      n (cc (rw e at (decode_payload_text-encode_payload m), decode_payload_text_nil pako))
