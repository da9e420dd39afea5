-- ===== src/Protocol/Codec.antt =====
-- src/protocol/codec.ts: messages on the wire, and the reader of a stream of frames.
pub mod Scan
pub mod RoundTrip
use pdn_whatspac_client.Base.{
  ℕ, zero, suc, ◌+◌, ◌-◌, Bool, true, false, Option, none, some, List, [], ◌∷◌, ◌++◌, Text, Bytes,
  codes, length, take, drop, ltb, ◌==◌, if◌then◌else◌,
}
use pdn_whatspac_client.Js.Json.{Json, str, obj, Fields, get}
use pdn_whatspac_client.Js.Json.Writer.{stringify}
use pdn_whatspac_client.Js.Json.Parser.{parse}
use pdn_whatspac_client.Protocol.Pako.{Pako}
use pdn_whatspac_client.Protocol.Framing.{terminator, encode_payload, decode_payload_text}

-- The three messages of `WpsDecodeError`.
pub data WpsDecodeError : Type 0 where
  not_inflated not_json no_type : WpsDecodeError

pub data Result {ℓ} (A : Type ℓ) : Type ℓ where
  ok : A → Result A
  err : WpsDecodeError → Result A

infixl 5 ◌>>=◌
abbrev pub ◌>>=◌ {ℓ κ} : {A : Type ℓ} {B : Type κ} → Result A → (A → Result B) → Result B
ok a >>= f = f a
err e >>= f = err e

-- A parsed message: the fields of an object, with a string `t`.
abbrev pub WpsMessage : Type 0
WpsMessage = Fields

-- `encodeFrame`.
unfoldable pub encode_frame : Pako → WpsMessage → Bytes
encode_frame pako msg = encode_payload pako (stringify (obj msg)) ++ terminator ∷ []

-- `typeof obj.t === "string"`.
abbrev pub is_string : Option Json → Bool
is_string (some (str s)) = true
is_string _ = false

-- The last test of `decodeFrame`. An array is an object too, and has no `t`.
unfoldable pub as_message : Json → Result WpsMessage
as_message (obj fs) = if is_string (get (codes "t") fs) then ok fs else err no_type
as_message _ = err no_type

parsed : Option Json → Result WpsMessage
unfolding as_message
parsed none = err not_json
parsed (some v) = as_message v

inflated : Option Text → Result WpsMessage
unfolding parsed
inflated none = err not_inflated
inflated (some text) = parsed (parse text)

-- `decodeFrame`.
unfoldable pub decode_frame : Pako → Bytes → Result WpsMessage
unfolding inflated
decode_frame pako payload = inflated (decode_payload_text pako payload)

-- The `for` loop of `FrameReader.push` at index `i`: `rest` is what stands there in `combined`.
-- The messages so far, and the final `start`.
unfoldable pub scan : Pako → Bytes → Bytes → ℕ → ℕ → List WpsMessage → Result (List WpsMessage × ℕ)
scan pako combined [] i start messages = ok (messages, start)
scan pako combined (b ∷ rest) i start messages =
    let found = scan pako combined rest (i + 1) (i + 1) in
    let next = scan pako combined rest (i + 1) start messages in
    if b == terminator
    then (if ltb start i
        then (do
          message ← decode_frame pako (take (i - start) (drop start combined))
          found (messages ++ message ∷ []))
        else found messages)
    else next

abbrev pub combine : Bytes → Bytes → Bytes
combine [] chunk = chunk
combine buffer chunk = buffer ++ chunk

-- `FrameReader.push`: the messages that the chunk completes, and the new `buffer`. Where a frame
-- does not decode it throws, and leaves the buffer as it was.
unfoldable pub push : Pako → Bytes → Bytes → Result (List WpsMessage × Bytes)
push pako buffer chunk = do
  let combined = combine buffer chunk
  (messages, start) ← scan pako combined combined 0 0 []
  ok (messages, if ltb start (length combined) then drop start combined else [])
