-- ===== src/Rhp/Envelope.antt =====
-- The JSON envelopes of src/rhp/wire.ts: `encodeFrame` and `decodeFrameBody`.
pub mod RoundTrip
use pdn_whatspac_client.Base.{
  ℕ, Bool, true, false, Option, none, some, List, [], ◌∷◌, Text, Bytes, codes, if◌then◌else◌,
}
use pdn_whatspac_client.Js.Json.{Json, str, obj, Fields, end, field, get}
use pdn_whatspac_client.Js.Json.Members.{defined}
use pdn_whatspac_client.Js.Json.Writer.{stringify}
use pdn_whatspac_client.Js.Json.Parser.{parse}
use pdn_whatspac_client.Js.Utf8.{encode, decode}
use pdn_whatspac_client.Rhp.Wire.{frame_body}

-- `RhpEnvelope`: the `type`, and the other members in order, `none` where one is `undefined`. A
-- JavaScript object holds each key once; no member has the name of an array index.
pub record RhpEnvelope : Type 0 where
  pub type : Text
  pub rest : List (Text × Option Json)

-- `ordered`: the `type` comes first.
abbrev pub ordered : RhpEnvelope → Fields
ordered e = field (codes "type") (str e.type) (defined e.rest)

unfoldable pub serialise_envelope : RhpEnvelope → Text
serialise_envelope e = stringify (obj (ordered e))

-- `encodeFrame`: `none` for the RangeError.
unfoldable pub encode_frame : RhpEnvelope → Option Bytes
encode_frame e = frame_body (encode (serialise_envelope e))

-- What `decodeFrameBody` throws.
pub data DecodeError : Type 0 where
  not_json not_object no_type : DecodeError

pub data Decoded : Type 0 where
  envelope : Fields → Decoded
  failed : DecodeError → Decoded

typed : Fields → Option Json → Decoded
typed fs (some (str t)) = envelope fs
typed fs _ = failed no_type

parsed_body : Option Json → Decoded
unfolding typed
parsed_body none = failed not_json
parsed_body (some (obj fs)) = typed fs (get (codes "type") fs)
parsed_body (some v) = failed not_object

unfoldable pub decode_frame_body : Bytes → Decoded
unfolding parsed_body
decode_frame_body body = parsed_body (parse (decode body))
