-- ===== src/Rhp/Connection.antt =====
-- `RhpConnection` of src/rhp/client.ts: requests and their replies, and the pushes for a handle.
-- The socket and the reply timers are the source of the events, and promises and listeners what the
-- effects go to. Handles are natural numbers.
pub mod Counting
pub mod Inbound
pub mod Settling
use pdn_whatspac_client.Base.{
  ℕ, ◌+◌, Bool, true, false, Option, none, some, List, [], ◌∷◌, ◌++◌, map, Text, Bytes, codes,
  text_eq, ◌==◌, if◌then◌else◌,
}
use pdn_whatspac_client.Js.Json.{Json, null, bool, num, str, arr, obj, Fields, get}
use pdn_whatspac_client.Rhp.Wire.{wire_string_to_bytes}
use pdn_whatspac_client.Rhp.Envelope.{
  RhpEnvelope, encode_frame, Decoded, envelope, failed, decode_frame_body,
}
use pdn_whatspac_client.Rhp.Deframer

pub record Connection : Type 0 where
  pub deframer : Bytes
  pub next_id : ℕ
  pub pending : List ℕ
  pub data_listeners : List ℕ
  pub close_listeners : List ℕ
  pub closed : Bool

abbrev pub fresh : Connection
fresh = record {
  deframer = [];
  next_id = 1;
  pending = [];
  data_listeners = [];
  close_listeners = [];
  closed = false;
}

-- `issued` is the promise of a request; it is settled when it is resolved or rejected.
pub data Effect : Type 0 where
  issued : ℕ → Effect
  resolved : ℕ → Fields → Effect
  rejected : ℕ → Effect
  refused : Effect
  wrote : Bytes → Effect
  delivered : ℕ → Bytes → Effect
  link_closed : ℕ → Effect

unfoldable pub member : ℕ → List ℕ → Bool
member k [] = false
member k (x ∷ xs) = let rest = member k xs in if x == k then true else rest

unfoldable pub delete : ℕ → List ℕ → List ℕ
delete k [] = []
delete k (x ∷ xs) = let rest = delete k xs in if x == k then rest else x ∷ rest

-- A key of a map: where the value is a number.
abbrev pub key_of : Option Json → Option ℕ
key_of (some (num false whole [])) = some whole
key_of _ = none

abbrev pub is_number : Option Json → Bool
is_number (some (num negative whole fraction)) = true
is_number _ = false

-- A reply: to the request that waits for it, or to none.
unfoldable pub on_reply : Option ℕ → Fields → Connection → Connection × List Effect
on_reply none env c = (c, [])
on_reply (some id) env c =
    if member id c.pending
    then (record c { pending = delete id c.pending }, resolved id env ∷ [])
    else (c, [])

-- `#onRecv`: data that is no string counts as no bytes.
abbrev pub bytes_of : Option Json → Bytes
bytes_of (some (str s)) = wire_string_to_bytes s
bytes_of _ = []

abbrev pub on_recv : Option ℕ → Fields → Connection → Connection × List Effect
on_recv none env c = (c, [])
on_recv (some handle) env c = (
  c,
  if member handle c.data_listeners
      then delivered handle (bytes_of (get (codes "data") env)) ∷ []
      else [],
)

-- `#onServerClose`.
abbrev pub on_server_close : Option ℕ → Connection → Connection × List Effect
on_server_close none c = (c, [])
on_server_close (some handle) c = (
  record c {
    data_listeners = delete handle c.data_listeners;
    close_listeners = delete handle c.close_listeners;
  },
  if member handle c.close_listeners then link_closed handle ∷ [] else [],
)

abbrev pub push_ : Option Json → Fields → Connection → Connection × List Effect
push_ (some (str t)) env c =
    if text_eq t (codes "recv")
    then on_recv (key_of (get (codes "handle") env)) env c
    else if text_eq t (codes "close")
    then on_server_close (key_of (get (codes "handle") env)) c
    else (c, [])
push_ _ env c = (c, [])

-- `#dispatch`: an `id` makes it a reply, else the `type` says what it is.
unfoldable pub dispatch : Fields → Connection → Connection × List Effect
dispatch env c =
    let id = get (codes "id") env in
    if is_number id then on_reply (key_of id) env c else push_ (get (codes "type") env) env c

-- A body that does not decode is skipped.
abbrev pub on_decoded : Decoded → Connection → Connection × List Effect
on_decoded (envelope env) c = dispatch env c
on_decoded (failed e) c = (c, [])

abbrev pub on_body : Bytes → Connection → Connection × List Effect
on_body [] c = (c, [])
on_body (b ∷ body) c = on_decoded (decode_frame_body (b ∷ body)) c

unfoldable pub on_bodies : List Bytes → Connection → Connection × List Effect
on_bodies [] c = (c, [])
on_bodies (b ∷ bs) c =
    let (d, effects) = on_body b c in let (e, more) = on_bodies bs d in (e, effects ++ more)

-- `#onData`.
unfoldable pub on_data : Bytes → Connection → Connection × List Effect
on_data chunk c =
    let (bodies, buf) = Deframer.push c.deframer chunk in
    on_bodies bodies (record c { deframer = buf })

-- `#onTransportEnd`: the first time, every request fails and every link is closed.
unfoldable pub on_transport_end : Connection → Connection × List Effect
on_transport_end c = if c.closed then (c, []) else (
  record c { closed = true; pending = []; data_listeners = []; close_listeners = [] },
  map rejected c.pending ++ map link_closed c.close_listeners,
)

-- `{ ...envelope, id }`.
abbrev pub with_id : ℕ → RhpEnvelope → RhpEnvelope
with_id id e = record e { rest = e.rest ++ (codes "id", some (num false id [])) ∷ [] }

-- What `#write` makes of the request that waits under `id`: where it throws, the request fails.
abbrev pub written : ℕ → Option Bytes → Connection → Connection × List Effect
written id none c = (record c { pending = delete id c.pending }, issued id ∷ rejected id ∷ [])
written id (some frame) c = (c, issued id ∷ wrote frame ∷ [])

-- `#request`.
unfoldable pub request : RhpEnvelope → Connection → Connection × List Effect
request e c =
    if c.closed
    then (c, refused ∷ [])
    else written c.next_id (encode_frame (with_id c.next_id e))
        (record c { next_id = c.next_id + 1; pending = c.pending ++ c.next_id ∷ [] })

-- The timer of a request, which is cleared when the request is settled.
unfoldable pub on_timeout : ℕ → Connection → Connection × List Effect
on_timeout id c =
    if member id c.pending
    then (record c { pending = delete id c.pending }, rejected id ∷ [])
    else (c, [])

-- `onData` and `onClose` for a handle.
abbrev pub listen_data : ℕ → Connection → Connection × List Effect
listen_data handle c = (record c { data_listeners = handle ∷ delete handle c.data_listeners }, [])

unfoldable pub listen_close : ℕ → Connection → Connection × List Effect
listen_close handle c =
    if c.closed
    then (record c { close_listeners = delete handle c.close_listeners }, link_closed handle ∷ [])
    else (record c { close_listeners = handle ∷ delete handle c.close_listeners }, [])

pub data Event : Type 0 where
  requests : RhpEnvelope → Event
  chunk : Bytes → Event
  timeout : ℕ → Event
  transport_end : Event
  data_listener close_listener : ℕ → Event

unfoldable pub step : Event → Connection → Connection × List Effect
step (requests e) c = request e c
step (chunk bytes) c = on_data bytes c
step (timeout id) c = on_timeout id c
step transport_end c = on_transport_end c
step (data_listener handle) c = listen_data handle c
step (close_listener handle) c = listen_close handle c

unfoldable pub run : List Event → Connection → Connection × List Effect
run [] c = (c, [])
run (e ∷ es) c = let (d, effects) = step e c in let (f, more) = run es d in (f, effects ++ more)
