-- ===== src/Agent/Client.antt =====
-- `WhatspacAgent` of src/agent/agent.ts as a whole: the connection and the store in one state, the
-- messages that come narrowed and dispatched, and the calls of the heads. A promise of `link.send`
-- that settles is an event of its own.
pub mod Mirror
pub mod Session
use pdn_whatspac_client.Base.{
  ℕ, Bool, true, false, Option, none, some, List, [], ◌∷◌, ◌++◌, map, Text, Bytes, codes,
  if◌then◌else◌,
}
use pdn_whatspac_client.Js.Json.{str, arr, nil, cons, Fields, end, field}
use pdn_whatspac_client.Protocol.Pako.{Pako}
use pdn_whatspac_client.Protocol.Codec.{WpsMessage, WpsDecodeError}
use pdn_whatspac_client.Protocol.Messages.{Callsign, Inbound}
use pdn_whatspac_client.Protocol.Narrowing.{narrow}
use pdn_whatspac_client.Store.{Store, set_channel_subscribed}
use pdn_whatspac_client.Store.Queries.{last_avatar_ts}
use pdn_whatspac_client.Agent.Lifecycle.{
  Config, Agent, Effect, open_link, close_link, transmit, send_connect_object, send_enquiry,
  send_keepalive, dispatches, corrupt, reconnect_in, clear_reconnect,
}
use pdn_whatspac_client.Agent.Lifecycle
use pdn_whatspac_client.Agent.Dispatch.{name_enquiry, dispatch}
use pdn_whatspac_client.Agent.Dispatch
use pdn_whatspac_client.Agent.Outbound.{
  Identity, Outcome, natural, if_sent, connect_object, send_direct_message, post_to_channel,
  subscribe_channel, unsubscribe_channel,
}

pub record Client : Type 0 where
  pub agent : Agent
  pub store : Store

-- What is asked of the transport and the timers, what the heads hear, and what a call throws.
-- `unread` is a message whose fields have not the shape of its type's interface.
pub data Output : Type 0 where
  opens_link closes_link : Output
  writes : Bytes → Output
  sends : Fields → Output
  emits : Dispatch.Event → Output
  drops_corrupt : WpsDecodeError → Output
  unread : WpsMessage → Output
  reconnects_in : ℕ → Output
  clears_reconnect : Output
  not_connected : Output

-- The first idle tick's enquiry, the keepalive, and the enquiry for a name.
abbrev pub avatar_enquiry : Store → Fields
avatar_enquiry s =
    field (codes "t") (str (codes "ae"))
      (field (codes "lats") (natural (last_avatar_ts s)) (field (codes "co") (natural 1) end))

abbrev pub keepalive_object : Fields
keepalive_object = field (codes "t") (str (codes "k")) end

abbrev pub name_enquiry_object : Callsign → Fields
name_enquiry_object c =
    field (codes "t") (str (codes "he")) (field (codes "h") (arr (cons (str c) nil)) end)

-- `sendWps`, which throws where there is no link.
abbrev pub outputs_of : Option Fields → List Output
outputs_of none = not_connected ∷ []
outputs_of (some msg) = sends msg ∷ []

abbrev pub send_wps : Bool → Fields → List Output
send_wps link msg = outputs_of (if_sent link msg)

-- A name enquiry that throws is passed over.
abbrev pub heard : Bool → Dispatch.Event → List Output
heard link (name_enquiry c) = if link then sends (name_enquiry_object c) ∷ [] else []
heard link e = emits e ∷ []

abbrev pub heard_all : Bool → List Dispatch.Event → List Output
heard_all link [] = []
heard_all link (e ∷ es) = heard link e ++ heard_all link es

abbrev pub narrowed : Bool → Option Inbound → WpsMessage → Store → Store × List Output
narrowed link none msg s = (s, unread msg ∷ [])
narrowed link (some m) msg s = let (t, events) = dispatch m s in (t, heard_all link events)

unfoldable pub on_message : Bool → WpsMessage → Store → Store × List Output
on_message link msg s = narrowed link (narrow msg) msg s

-- An effect of the connection, on the store; `link` says whether there is one.
unfoldable pub perform : Identity → Bool → Effect → Store → Store × List Output
perform who link open_link s = (s, opens_link ∷ [])
perform who link close_link s = (s, closes_link ∷ [])
perform who link (transmit bytes) s = (s, writes bytes ∷ [])
perform who link send_connect_object s = (s, send_wps link (connect_object who s))
perform who link send_enquiry s = (s, send_wps link (avatar_enquiry s))
perform who link send_keepalive s = (s, send_wps link keepalive_object)
perform who link (dispatches msg) s = on_message link msg s
perform who link (corrupt e) s = (s, drops_corrupt e ∷ [])
perform who link (reconnect_in ms) s = (s, reconnects_in ms ∷ [])
perform who link clear_reconnect s = (s, clears_reconnect ∷ [])

unfoldable pub perform_all : Identity → Bool → List Effect → Store → Store × List Output
perform_all who link [] s = (s, [])
perform_all who link (e ∷ es) s =
    let (t, outputs) = perform who link e s in
    let (u, more) = perform_all who link es t in (u, outputs ++ more)

-- What happens to the agent: an event of the connection, a call of a head, and the promise of a
-- call's message. The clock is read by the calls.
pub data Event : Type 0 where
  wire : Lifecycle.Event → Event
  messages : ℕ → ℕ → Callsign → Text → Event
  posts : ℕ → Text → Text → Event
  subscribes unsubscribes : Text → Event
  went_out : Event
  subscription_went_out : Bool → Text → Event

-- `resetIdle`: where the heartbeat is on it starts anew.
abbrev pub reset_idle : Agent → Agent
reset_idle a = record a { idle_ms = 0 }

abbrev pub called : Outcome → Client → Client × List Output
called o c = (record c { store = o.store }, outputs_of o.sent)

abbrev pub asked : Outcome → Client → Client × List Output
asked o c = (c, outputs_of o.sent)

abbrev pub performed : Identity → Bool → Agent × List Effect → Store → Client × List Output
performed who link (a, effects) s =
    let (t, outputs) = perform_all who link effects s in (record { agent = a; store = t }, outputs)

unfoldable pub step : Pako → Config → Identity → Event → Client → Client × List Output
step pako cfg who (wire e) c =
    performed who c.agent.link (Lifecycle.step pako cfg e c.agent) c.store
step pako cfg who (messages now later tc text) c =
    called (send_direct_message who c.agent.link now later tc text c.store) c
step pako cfg who (posts now cid text) c =
    called (post_to_channel who c.agent.link now cid text c.store) c
step pako cfg who (subscribes cid) c = asked (subscribe_channel c.agent.link cid c.store) c
step pako cfg who (unsubscribes cid) c = asked (unsubscribe_channel c.agent.link cid c.store) c
step pako cfg who went_out c = (record c { agent = reset_idle c.agent }, [])
step pako cfg who (subscription_went_out subscribed cid) c = (
  record { agent = reset_idle c.agent; store = set_channel_subscribed cid subscribed c.store },
  [],
)

unfoldable pub run : Pako → Config → Identity → List Event → Client → Client × List Output
run pako cfg who [] c = (c, [])
run pako cfg who (e ∷ es) c =
    let (d, outputs) = step pako cfg who e c in
    let (f, more) = run pako cfg who es d in (f, outputs ++ more)
