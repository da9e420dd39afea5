-- ===== src/Rhp/Requests.antt =====
-- The requests that src/rhp/client.ts makes on a connection, and what it takes from the replies.
use pdn_whatspac_client.Base.{
  ℕ, ◌≡◌, refl, ap, sym, ◌∙◌, Bool, true, false, Bool-cases, inl, inr, Option, none, some, List, [],
  ◌∷◌, Text, Bytes, codes, text_eq, zero, arith, if◌then◌else◌,
}
use pdn_whatspac_client.Js.Json.{Json, null, bool, str, num, arr, obj, Fields, get}
use pdn_whatspac_client.Rhp.Wire.{bytes_to_wire_string, wire_string_to_bytes}
use pdn_whatspac_client.Rhp.Wire.Latin1.{IsBytes, wire_string_to_bytes-bytes_to_wire_string}
use pdn_whatspac_client.Rhp.Envelope.{RhpEnvelope, ordered}
use pdn_whatspac_client.Rhp.Connection.{Connection, Effect, wrote}
use pdn_whatspac_client.Rhp.Envelope

-- `OPEN_FLAG_ACTIVE`.
abbrev pub open_flag_active : ℕ
open_flag_active = 128

pub data AddressFamily : Type 0 where
  ax25 netrom : AddressFamily

-- `PFAM`.
abbrev pub pfam : AddressFamily → Text
pfam ax25 = codes "ax25"
pfam netrom = codes "netrom"

-- `RhpOpenOptions`.
pub record OpenOptions : Type 0 where
  pub family : AddressFamily
  pub local : Option Text
  pub remote : Text
  pub port : Option Text

abbrev pub or_null : Option Text → Json
or_null none = null
or_null (some s) = str s

abbrev pub text_member : Option Text → Option Json
text_member none = none
text_member (some s) = some (str s)

-- What `authenticate`, `open` and `send` ask for.
abbrev pub auth_request : Text → Text → RhpEnvelope
auth_request user pass = record {
  type = codes "auth";
  rest = (codes "user", some (str user)) ∷ (codes "pass", some (str pass)) ∷ [];
}

abbrev pub open_request : OpenOptions → RhpEnvelope
open_request o = record {
  type = codes "open";
  rest =
      (codes "pfam", some (str (pfam o.family)))
      ∷ (codes "mode", some (str (codes "stream")))
      ∷ (codes "flags", some (num false open_flag_active []))
      ∷ (codes "port", some (or_null o.port))
      ∷ (codes "local", text_member o.local)
      ∷ (codes "remote", some (str o.remote))
      ∷ [];
}

unfoldable pub send_request : ℕ → Bytes → RhpEnvelope
send_request handle data' = record {
  type = codes "send";
  rest =
      (codes "handle", some (num false handle []))
      ∷ (codes "data", some (str (bytes_to_wire_string data')))
      ∷ [];
}

-- `closeHandle`: nothing on a closed connection, and no `id` on the frame.
abbrev pub close_envelope : ℕ → RhpEnvelope
close_envelope handle = record {
  type = codes "close";
  rest = (codes "handle", some (num false handle [])) ∷ [];
}

abbrev pub written_frame : Option Bytes → List Effect
written_frame none = []
written_frame (some frame) = wrote frame ∷ []

unfoldable pub close_handle : ℕ → Connection → List Effect
close_handle handle c =
    if c.closed then [] else written_frame (Envelope.encode_frame (close_envelope handle))

-- `throwOnErr`: a code that is a number and not zero.
abbrev pub is_failure : Option Json → Bool
is_failure (some (num negative zero [])) = false
is_failure (some (num negative whole fraction)) = true
is_failure _ = false

-- What `open` makes of its reply: the handle, or the two errors.
pub data Opened : Type 0 where
  handle_is : Json → Opened
  refused : Opened
  no_handle : Opened

abbrev pub handle_of : Option Json → Opened
handle_of (some (num negative whole fraction)) = handle_is (num negative whole fraction)
handle_of _ = no_handle

unfoldable pub on_open_reply : Fields → Opened
on_open_reply reply =
    if is_failure (get (codes "errCode") reply)
    then refused
    else handle_of (get (codes "handle") reply)

-- The request that sends bytes carries them: its `data` is a string that decodes to them.
pub send_request-carries :
    (handle : ℕ) (data' : Bytes)
    → IsBytes data'
    → (s : Text) × (get (codes "data") (ordered (send_request handle data')) ≡ some (str s))
      × (wire_string_to_bytes s ≡ data')
unfolding send_request get text_eq
send_request-carries handle data' h =
    (bytes_to_wire_string data', refl, wire_string_to_bytes-bytes_to_wire_string data' h)

handle_of-some : (o : Option Json) (h : Json) → handle_of o ≡ handle_is h → o ≡ some h
handle_of-some (some (num n w f)) h e = ap (λ x. some x) (cc e)
handle_of-some none h e = cc e
handle_of-some (some null) h e = cc e
handle_of-some (some (bool b)) h e = cc e
handle_of-some (some (str s)) h e = cc e
handle_of-some (some (arr xs)) h e = cc e
handle_of-some (some (obj fs)) h e = cc e

-- A link is opened only on a reply that reports no failure, under the handle that it names.
pub on_open_reply-handle :
    (reply : Fields) (h : Json)
    → on_open_reply reply ≡ handle_is h
    → (is_failure (get (codes "errCode") reply) ≡ false) × (get (codes "handle") reply ≡ some h)
unfolding on_open_reply
on_open_reply-handle reply h e = elim (Bool-cases (is_failure (get (codes "errCode") reply))) [
  | inl y ↦
      let z = ap (λ b. if b then refused else handle_of (get (codes "handle") reply)) y in
      absurd (ground (arith, z, e))
  | inr n ↦
      let z = ap (λ b. if b then refused else handle_of (get (codes "handle") reply)) n in
      (n, handle_of-some (get (codes "handle") reply) h (sym z ∙ e))
]
