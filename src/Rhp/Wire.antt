-- ===== src/Rhp/Wire.antt =====
-- src/rhp/wire.ts: the Latin-1 `data` strings and the length-prefixed frames.
pub mod Latin1
use pdn_whatspac_client.Base.{
  ℕ, zero, suc, ◌+◌, ◌%◌, ◌/◌, true, false, Option, none, some, List, [], ◌∷◌, ◌++◌, map, Bytes,
  Text, length, take, drop, ltb, leb, if◌then◌else◌, ◌==◌,
}

-- `MAX_PAYLOAD_LENGTH`.
abbrev pub max_payload_length : ℕ
max_payload_length = 65535

-- `String.fromCharCode(...units)`: each argument is taken modulo 2^16.
abbrev pub from_char_code : List ℕ → Text
from_char_code = map (λ u. u % 65536)

-- The `for` loop of `bytesToWireString` from position `i`, on rounds of fuel.
unfoldable pub wire_chunks : ℕ → ℕ → Bytes → ℕ → Text → Text
wire_chunks chunk zero bytes i out = out
wire_chunks chunk (suc fuel) bytes i out = elim (ltb i (length bytes)) [
  | true ↦
      wire_chunks chunk fuel bytes (i + chunk) (out ++ from_char_code (take chunk (drop i bytes)))
  | false ↦ out
]

abbrev pub chunk_size : ℕ
chunk_size = 32768

unfoldable pub bytes_to_wire_string : Bytes → Text
bytes_to_wire_string bytes =
    if length bytes == 0
    then []
    else if leb (length bytes) chunk_size
    then from_char_code bytes
    else wire_chunks chunk_size (length bytes) bytes 0 []

-- `s.charCodeAt(i) & 0xff`, for every `i`.
unfoldable pub wire_string_to_bytes : Text → Bytes
wire_string_to_bytes = map (λ u. u % 256)

-- The two-byte big-endian length, and the body.
abbrev pub framed : Bytes → Bytes
framed body = (length body / 256) % 256 ∷ length body % 256 ∷ body

-- The last step of `encodeFrame`, on the UTF-8 body of the envelope: `none` for the RangeError.
unfoldable pub frame_body : Bytes → Option Bytes
frame_body body = if ltb max_payload_length (length body) then none else some (framed body)
