-- ===== src/Web/Events.antt =====
-- The event stream of src/heads/web/app.ts, `/api/events`, on the emitter of src/util/emitter.ts. The
-- four listeners of a stream are told apart by their events, and from those of others by a number.
pub mod Closing
use pdn_whatspac_client.Base.{
  ℕ, ◌≡◌, refl, sym, ap, ◌∙◌, Bool, true, false, List, [], ◌∷◌, ◌++◌, Text, All, codes, text_eq,
  if◌then◌else◌, inl, inr, Bool-cases, arith,
}
use pdn_whatspac_client.Js.Json.{Json, str, obj, end, field}
use pdn_whatspac_client.Util.Emitter.{Listeners, on, off, emit, has}

-- A stream: the emitter that all share, and `closed`.
pub record Stream : Type 0 where
  pub listeners : Listeners
  pub closed : Bool

-- `stream.writeSSE({ event, data: JSON.stringify(data) })`.
pub record Frame : Type 0 where
  pub event : Text
  pub payload : Json

abbrev pub status_event : Text
status_event = codes "status"

abbrev pub post_event : Text
post_event = codes "post"

abbrev pub message_event : Text
message_event = codes "message"

abbrev pub presence_event : Text
presence_event = codes "presence"

-- `send`.
abbrev pub send : Text → Json → Stream → List Frame
send event payload s = if s.closed then [] else record { event = event; payload = payload } ∷ []

abbrev pub subscribed : ℕ → Listeners → Listeners
subscribed l s = on presence_event l (on message_event l (on post_event l (on status_event l s)))

abbrev pub unsubscribed : ℕ → Listeners → Listeners
unsubscribed l s =
    off presence_event l (off message_event l (off post_event l (off status_event l s)))

abbrev pub status_payload : Text → Json
status_payload status = obj (field (codes "status") (str status) end)

-- A request opens the stream: it listens, and the first frame is the agent's status.
unfoldable pub open_stream : ℕ → Text → Listeners → Stream × List Frame
open_stream l status s =
    let stream : Stream = record { listeners = subscribed l s; closed = false } in
    (stream, send status_event (status_payload status) stream)

-- `cleanup`, which both `onAbort` handlers come to.
unfoldable pub cleanup : ℕ → Stream → Stream
cleanup l s =
    if s.closed then s else record { listeners = unsubscribed l s.listeners; closed = true }

-- The agent emits an event: a frame where the stream's listener is called.
unfoldable pub hears : ℕ → Text → Json → Stream → List Frame
hears l event payload s = if has l (emit event s.listeners) then send event payload s else []

pub data Event : Type 0 where
  emitted : Text → Json → Event
  aborted : Event

unfoldable pub step : ℕ → Event → Stream → Stream × List Frame
step l (emitted event payload) s = (s, hears l event payload s)
step l aborted s = (cleanup l s, [])

unfoldable pub run : ℕ → List Event → Stream → Stream × List Frame
run l [] s = (s, [])
run l (e ∷ es) s = let (t, frames) = step l e s in let (u, more) = run l es t in (u, frames ++ more)
