-- ===== src/Rhp/Envelope/RoundTrip.antt =====
-- The envelopes of src/rhp/wire.ts that were written come out of the stream.
use pdn_whatspac_client.Base.{
  ◌≡◌, refl, ap, ◌∙◌, Option, none, some, List, [], ◌∷◌, map, ◌++◌, text_eq, Bytes, All,
  Option-cases, inl, inr, arith,
}
use pdn_whatspac_client.Js.Json.{obj, get}
use pdn_whatspac_client.Js.Json.Writer.{write, stringify}
use pdn_whatspac_client.Js.Json.Parser.RoundTrip.{AreFields, parse-stringify}
use pdn_whatspac_client.Js.Json.Printed.{stringify-IsPrinted}
use pdn_whatspac_client.Js.Utf8.{encode}
use pdn_whatspac_client.Js.Utf8.RoundTrip.{NoMark, decode-encode}
use pdn_whatspac_client.Rhp.Wire.{framed, frame_body}
use pdn_whatspac_client.Base.Chunks.{feed, join, Every}
use pdn_whatspac_client.Rhp.Wire.Latin1.{IsBytes}
use pdn_whatspac_client.Rhp.Deframer.{push}
use pdn_whatspac_client.Rhp.Deframer.Stream.{wire, FitsFrame}
use pdn_whatspac_client.Rhp.Deframer.Chunking.{feed-push-wire}
use pdn_whatspac_client.Rhp.Envelope.{
  RhpEnvelope, ordered, serialise_envelope, encode_frame, envelope, decode_frame_body,
}

-- An envelope that JSON text can hold.
abbrev pub IsEnvelope : RhpEnvelope → Type 0
IsEnvelope e = AreFields (ordered e)

abbrev pub body : RhpEnvelope → Bytes
body e = encode (serialise_envelope e)

module _ (e : RhpEnvelope) (h : IsEnvelope e) where
  no_mark : NoMark (serialise_envelope e)
  unfolding serialise_envelope stringify write
  no_mark = omega arith

  -- The body of a frame decodes to the members that were defined, `type` first.
  pub decode_frame_body-body : decode_frame_body (body e) ≡ envelope (ordered e)
  unfolding decode_frame_body serialise_envelope get text_eq
  decode_frame_body-body = rw (
    decode-encode (stringify-IsPrinted (obj (ordered e)) h) no_mark,
    parse-stringify (obj (ordered e)) h,
  )

abbrev pub after_frame : Option Bytes → Option Bytes → Option Bytes
after_frame (some f) (some w) = some (f ++ w)
after_frame _ _ = none

-- The stream that the frames of these envelopes make, where none is too long.
unfoldable pub write_all : List RhpEnvelope → Option Bytes
write_all [] = some []
write_all (e ∷ es) = after_frame (encode_frame e) (write_all es)

encode_frame-some :
    (e : RhpEnvelope) (f : Bytes)
    → encode_frame e ≡ some f
    → (f ≡ framed (body e)) × FitsFrame (body e)
unfolding encode_frame frame_body
encode_frame-some e f h = ground arith

write_all-cons :
    (e : RhpEnvelope) (es : List RhpEnvelope) (w : Bytes)
    → write_all (e ∷ es) ≡ some w
    → (f : Bytes) × (v : Bytes) × (encode_frame e ≡ some f) × (write_all es ≡ some v) × (w ≡ f ++ v)
unfolding write_all
write_all-cons e es w h = elim (Option-cases (encode_frame e)) [
  | inl n ↦ absurd (cc (n, h))
  | inr (f, a) ↦ elim (Option-cases (write_all es)) [
    | inl n ↦ absurd (cc (n, a, h))
    | inr (v, b) ↦ (f, v, a, b, cc (a, b, h))
  ]
]

write_all-wire :
    (es : List RhpEnvelope) (w : Bytes)
    → write_all es ≡ some w
    → (w ≡ wire (map body es)) × All FitsFrame (map body es)
write_all-wire [] w h = unfold write_all in (cc h, tt)
write_all-wire (e ∷ es) w h =
    let (f, v, a, b, c) = write_all-cons e es w h in
    let (x, fit) = encode_frame-some e f a in
    let (y, fits) = write_all-wire es v b in (cc (c, x, y), (fit, fits))

-- Decoding the bodies one by one.
decode_bodies :
    (es : List RhpEnvelope)
    → All IsEnvelope es
    → map decode_frame_body (map body es) ≡ map (λ e. envelope (ordered e)) es
decode_bodies [] h = refl
decode_bodies (e ∷ es) h = rw (decode_frame_body-body e h.0, decode_bodies es h.1)

-- Envelopes that JSON text can hold were written by `encodeFrame`, none of them too long, and come
-- in chunks of bytes of any size: the deframer and `decodeFrameBody` give the envelopes once each
-- and in order, with `type` first and without the undefined members, and nothing is left over.
pub envelopes-arrive :
    (es : List RhpEnvelope) (w : Bytes) (cs : List Bytes)
    → All IsEnvelope es
    → write_all es ≡ some w
    → Every IsBytes cs
    → join cs ≡ w
    → let (bodies, buf) = feed push [] cs in
      (map decode_frame_body bodies ≡ map (λ e. envelope (ordered e)) es) × (buf ≡ [])
envelopes-arrive es w cs h e p j =
    let (z, fits) = write_all-wire es w e in
    let come = feed-push-wire (map body es) cs fits p (j ∙ z) in
    (ap (λ q. map decode_frame_body q.0) come ∙ decode_bodies es h, ap (λ q. q.1) come)
