-- ===== src/Agent/Lifecycle.antt =====
-- The connection of src/agent/agent.ts: its state, and what each event that reaches it does. An
-- `await` is a point of `Progress` where the call waits for the next event; the microtask that
-- goes on after a settled promise is part of the event that settles it. What a message does to the
-- store is the business of `dispatch`.
pub mod Backoff
pub mod Keepalive
pub mod Stopping
pub mod Connecting
use pdn_whatspac_client.Base.{
  ℕ, ◌+◌, ◌*◌, ◌^◌, ◌≡◌, min, Bool, true, false, Option, none, some, List, [], ◌∷◌, ◌++◌, map, Text,
  Bytes, leb, ◌==◌, if◌then◌else◌,
}
use pdn_whatspac_client.Protocol.Pako.{Pako}
use pdn_whatspac_client.Protocol.Codec.{Result, ok, err, WpsMessage, WpsDecodeError}
use pdn_whatspac_client.Protocol.Codec
use pdn_whatspac_client.Agent.Script.{
  ConnectScript, Runner, Action, send, on_done, on_error, new, start, cancel,
}
use pdn_whatspac_client.Agent.Script

-- The times of `AgentConfig`, and its connect script.
pub record Config : Type 0 where
  pub connect_script : ConnectScript
  pub keep_alive_interval_ms : ℕ
  pub idle_cap_ms : ℕ
  pub reconnect_initial_ms : ℕ
  pub reconnect_max_ms : ℕ

-- `DEFAULTS`.
abbrev pub with_defaults : ConnectScript → Config
with_defaults script = record {
  connect_script = script;
  keep_alive_interval_ms = 540000;
  idle_cap_ms = 14400000;
  reconnect_initial_ms = 1000;
  reconnect_max_ms = 60000;
}

pub data AgentStatus : Type 0 where
  idle connecting running reconnecting stopped : AgentStatus

pub data Phase : Type 0 where
  connect wps : Phase

-- Where `connect()` waits: for `transport.open`, for the script, for the connect object to be sent
-- with the script's leftover in hand; or nowhere.
pub data Progress : Type 0 where
  nowhere : Progress
  opening : Progress
  scripting : Progress
  sending : Bytes → Progress

pub record Agent : Type 0 where
  pub status : AgentStatus
  pub link : Bool
  pub phase : Phase
  pub reader : Bytes
  pub runner : Option Runner
  pub keepalive : Bool
  pub idle_ms : ℕ
  pub reconnect_attempt : ℕ
  pub stopping : Bool
  pub progress : Progress

abbrev pub fresh : Agent
fresh = record {
  status = idle;
  link = false;
  phase = connect;
  reader = [];
  runner = none;
  keepalive = false;
  idle_ms = 0;
  reconnect_attempt = 0;
  stopping = false;
  progress = nowhere;
}

-- What the agent asks of the transport, the timers and the store.
pub data Effect : Type 0 where
  open_link : Effect
  close_link : Effect
  transmit : Bytes → Effect
  send_connect_object : Effect
  send_enquiry : Effect
  send_keepalive : Effect
  dispatches : WpsMessage → Effect
  corrupt : WpsDecodeError → Effect
  reconnect_in : ℕ → Effect
  clear_reconnect : Effect

-- What happens to it. A `tick` is the keepalive interval's.
pub data Event : Type 0 where
  starts stops : Event
  open_failed : Event
  opened : Event
  data_ : Bytes → Event
  closed : Event
  connect_sent connect_failed : Event
  script_timeout : Event
  tick : Event
  reconnect_due : Event

-- `scheduleReconnect`.
unfoldable pub delay : Config → ℕ → ℕ
delay cfg attempt = min (cfg.reconnect_initial_ms * 2 ^ attempt) cfg.reconnect_max_ms

abbrev pub schedule_reconnect : Config → Agent → Agent × List Effect
schedule_reconnect cfg a = (
  record a { status = reconnecting; reconnect_attempt = a.reconnect_attempt + 1 },
  reconnect_in (delay cfg a.reconnect_attempt) ∷ [],
)

abbrev pub unless_stopping : Config → Agent → Agent × List Effect
unless_stopping cfg a = if a.stopping then (a, []) else schedule_reconnect cfg a

-- `connect()`, up to `await this.transport.open`.
abbrev pub connect_ : Agent → Agent × List Effect
connect_ a = (
  record a { status = connecting; phase = connect; reader = []; progress = opening },
  open_link ∷ [],
)

-- `this.runner?.cancel()`.
abbrev pub cancelled : Option Runner → Option Runner
cancelled none = none
cancelled (some r) = some (cancel r)

-- The `catch` of `connect()`: the link's close handler does the rest.
abbrev pub give_up : Agent → Agent × List Effect
give_up a = (record a { runner = cancelled a.runner; progress = nowhere }, close_link ∷ [])

-- `ingest`; the reader keeps its buffer where a frame does not decode.
abbrev pub ingested : Result (List WpsMessage × Bytes) → Agent → Agent × List Effect
ingested (ok p) a = (record a { reader = p.1 }, map dispatches p.0)
ingested (err e) a = (a, corrupt e ∷ (if a.link then close_link ∷ [] else []))

unfoldable pub ingest : Pako → Bytes → Agent → Agent × List Effect
ingest pako chunk a = ingested (Codec.push pako a.reader chunk) a

-- After the script: `sendConnectObject`, which throws without a link.
abbrev pub enter_wps : Bytes → Agent → Agent × List Effect
enter_wps leftover a =
    if a.link
    then (record a { phase = wps; progress = sending leftover }, send_connect_object ∷ [])
    else give_up (record a { phase = wps })

abbrev pub before_that : List Effect → Agent × List Effect → Agent × List Effect
before_that effects (a, more) = (a, effects ++ more)

-- What the runner called, in order.
abbrev pub perform : List Action → Agent → Agent × List Effect
perform [] a = (a, [])
perform (send bytes ∷ actions) a = before_that (transmit bytes ∷ []) (perform actions a)
perform (on_done leftover ∷ actions) a = enter_wps leftover a
perform (on_error i ∷ actions) a = give_up a

abbrev pub runs : Agent → Runner × List Action → Agent × List Effect
runs a (r, actions) = perform actions (record a { runner = some r })

-- `onData`.
abbrev pub to_runner : Config → Bytes → Option Runner → Agent → Agent × List Effect
to_runner cfg chunk none a = (a, [])
to_runner cfg chunk (some r) a = runs a (Script.feed cfg.connect_script r chunk)

abbrev pub on_data : Pako → Config → Bytes → Phase → Agent → Agent × List Effect
on_data pako cfg chunk connect a = to_runner cfg chunk a.runner a
on_data pako cfg chunk wps a = ingest pako chunk a

-- The rest of `connect()` after the connect object: `startKeepalive` and the reset of the counters.
abbrev pub enter_running : Agent → Agent
enter_running a = record a {
  idle_ms = 0;
  keepalive = true;
  reconnect_attempt = 0;
  status = running;
  progress = nowhere;
}

abbrev pub then_running : Agent × List Effect → Agent × List Effect
then_running (a, effects) = (enter_running a, effects)

abbrev pub finish_connect : Pako → Bytes → Agent → Agent × List Effect
finish_connect pako [] a = (enter_running a, [])
finish_connect pako (b ∷ bs) a = then_running (ingest pako (b ∷ bs) a)

abbrev pub connect_sent_at : Pako → Progress → Agent → Agent × List Effect
connect_sent_at pako (sending leftover) a = finish_connect pako leftover (record a { idle_ms = 0 })
connect_sent_at pako _ a = (a, [])

-- `onKeepaliveTick`.
unfoldable pub tick_effects : Config → Bool → ℕ → List Effect
tick_effects cfg link now =
    if leb cfg.idle_cap_ms now
    then if link then close_link ∷ [] else []
    else if now == cfg.keep_alive_interval_ms
    then send_enquiry ∷ []
    else send_keepalive ∷ []

abbrev pub on_keepalive_tick : Config → Agent → Agent × List Effect
on_keepalive_tick cfg a =
    let now = a.idle_ms + cfg.keep_alive_interval_ms in
    (record a { idle_ms = now }, tick_effects cfg a.link now)

abbrev pub to_timeout : Option Runner → Agent → Agent × List Effect
to_timeout none a = (a, [])
to_timeout (some r) a = runs a (Script.on_timeout r)

-- `stop()`: the status changes once the link is closed.
abbrev pub stop : Agent → Agent × List Effect
stop a = (
  record a {
    stopping = true;
    runner = cancelled a.runner;
    keepalive = false;
    link = false;
    status = stopped;
  },
  clear_reconnect ∷ (if a.link then close_link ∷ [] else []),
)

-- `onClose`.
abbrev pub on_close : Config → Agent → Agent × List Effect
on_close cfg a =
    unless_stopping cfg (record a { runner = cancelled a.runner; keepalive = false; link = false })

unfoldable pub step : Pako → Config → Event → Agent → Agent × List Effect
step pako cfg starts a = connect_ (record a { stopping = false })
step pako cfg stops a = stop a
step pako cfg open_failed a = unless_stopping cfg (record a { progress = nowhere })
step pako cfg opened a =
    (record a { link = true; runner = some (start new); progress = scripting }, [])
step pako cfg (data_ chunk) a = on_data pako cfg chunk a.phase a
step pako cfg closed a = on_close cfg a
step pako cfg connect_sent a = connect_sent_at pako a.progress a
step pako cfg connect_failed a = give_up a
step pako cfg script_timeout a = to_timeout a.runner a
step pako cfg tick a = if a.keepalive then on_keepalive_tick cfg a else (a, [])
step pako cfg reconnect_due a = connect_ a

-- The events one after the other, and all that they make the agent ask for.
unfoldable pub run : Pako → Config → List Event → Agent → Agent × List Effect
run pako cfg [] a = (a, [])
run pako cfg (e ∷ es) a =
    let (b, effects) = step pako cfg e a in
    let (c, more) = run pako cfg es b in (c, effects ++ more)
