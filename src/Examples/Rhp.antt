-- ===== src/Examples/Rhp.antt =====
-- src/rhp on short streams.
use pdn_whatspac_client.Base.{codes, text_eq}
use pdn_whatspac_client.Js.Json.{Fields, get, field, end, num}
use pdn_whatspac_client.Base.{
  ◌+◌, ◌≡◌, ◌≤◌, refl, false, none, some, List, [], ◌∷◌, ◌++◌, map, Bytes, All, arith,
}
use pdn_whatspac_client.Base.Chunks.{feed}
use pdn_whatspac_client.Js.Json.{has_key}
use pdn_whatspac_client.Js.Json.Writer.{write, stringify}
use pdn_whatspac_client.Js.Utf8.{encode, encode_point}
use pdn_whatspac_client.Rhp.Wire.{frame_body}
use pdn_whatspac_client.Rhp.Deframer.{push}
use pdn_whatspac_client.Rhp.Envelope.{
  RhpEnvelope, ordered, encode_frame, serialise_envelope, envelope, decode_frame_body,
}
use pdn_whatspac_client.Rhp.Envelope.RoundTrip.{IsEnvelope, write_all, envelopes-arrive}
use pdn_whatspac_client.Rhp.Requests.{on_open_reply, handle_is}
use pdn_whatspac_client.Rhp.Connection.{
  fresh, requests, timeout, run, Event, on_transport_end, request, step, on_timeout, member,
}
use pdn_whatspac_client.Rhp.Connection.Counting.{count, issues, settles}
use pdn_whatspac_client.Rhp.Connection.Settling.{run-settles_once, transport_end-settles}

-- Two frames, cut within the length of the second.
abbrev two_frames : List Bytes
two_frames = (0 ∷ 1 ∷ 65 ∷ 0 ∷ []) ∷ (2 ∷ 66 ∷ 67 ∷ []) ∷ []

-- `{"type":"x"}`.
abbrev plain : RhpEnvelope
plain = record { type = 120 ∷ []; rest = (112 ∷ [], none) ∷ [] }

abbrev plain_frame : Bytes
plain_frame = 0 ∷ 12 ∷ 123 ∷ 34 ∷ 116 ∷ 121 ∷ 112 ∷ 101 ∷ 34 ∷ 58 ∷ 34 ∷ 120 ∷ 34 ∷ 125 ∷ []

plain_written : write_all (plain ∷ []) ≡ some plain_frame
unfolding write_all encode_frame serialise_envelope stringify write encode encode_point frame_body
plain_written = refl

plain-IsEnvelope : All IsEnvelope (plain ∷ [])
unfolding has_key
plain-IsEnvelope = (((omega arith), refl, (omega arith), tt), tt)

envelopes-arrive_example :
    let (bodies, buf) = feed push [] (plain_frame ∷ []) in
    (map decode_frame_body bodies ≡ envelope (ordered plain) ∷ []) × (buf ≡ [])
envelopes-arrive_example =
    envelopes-arrive (plain ∷ []) plain_frame (plain_frame ∷ []) plain-IsEnvelope plain_written
      (omega arith) refl

-- Two requests, one of which times out.
abbrev busy : List Event
busy = requests plain ∷ requests plain ∷ timeout 1 ∷ []

run-settles_once_example :
    let (c, effects) = run busy fresh in
    (issues 1 effects ≤ 1) × (count 1 c.pending + settles 1 effects ≡ issues 1 effects)
run-settles_once_example = run-settles_once 1 busy

busy_open : (run busy fresh).0.closed ≡ false
unfolding run step request on_timeout member encode_frame frame_body encode serialise_envelope
    stringify encode_point
busy_open = refl

transport_end-settles_example :
    let (c, effects) = run busy fresh in
    settles 2 (effects ++ (on_transport_end c).1) ≡ issues 2 effects
transport_end-settles_example = transport_end-settles 2 busy busy_open

abbrev good_reply : Fields
good_reply = field (codes "errCode") (num false 0 []) (field (codes "handle") (num false 5 []) end)

reply_opens : on_open_reply good_reply ≡ handle_is (num false 5 [])
unfolding on_open_reply get text_eq
reply_opens = refl
