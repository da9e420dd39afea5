-- ===== src/Protocol/Framing.antt =====
-- src/protocol/framing.ts: one frame payload, compressed or not.
pub mod RoundTrip
use pdn_whatspac_client.Base.{
  ℕ, ◌+◌, ◌-◌, Bool, ◌&&◌, Option, some, List, [], ◌∷◌, ◌++◌, Text, Bytes, length, get_or, take,
  drop, ltb, leb, ◌==◌, if◌then◌else◌,
}
use pdn_whatspac_client.Js.Base64.{bytes_to_base64, base64_to_bytes}
use pdn_whatspac_client.Js.Utf8.{encode, decode}
use pdn_whatspac_client.Protocol.Pako.{Pako}

-- `MARKER` and `TERMINATOR`.
abbrev pub marker : ℕ
marker = 0xc3

abbrev pub terminator : ℕ
terminator = 0x0d

-- `encodePayload`: compressed only where that is strictly shorter than the JSON text.
unfoldable pub encode_payload : Pako → Text → Bytes
encode_payload pako json =
    let b64 = bytes_to_base64 (pako.deflate json) in
    if ltb (length b64 + 2) (length json) then marker ∷ (b64 ++ marker ∷ []) else encode json

-- The test of `decodePayloadText`: two markers at least, at the ends.
unfoldable pub is_compressed : Bytes → Bool
is_compressed frame =
    leb 2 (length frame)
    && get_or frame 0 0 == marker
    && get_or frame (length frame - 1) 0 == marker

-- `decodePayloadText`, with `none` where `pako.inflate` throws.
unfoldable pub decode_payload_text : Pako → Bytes → Option Text
unfolding is_compressed
decode_payload_text pako frame =
    if is_compressed frame
    then pako.inflate (base64_to_bytes (take (length frame - 2) (drop 1 frame)))
    else some (decode frame)
