-- ===== src/Agent/Lifecycle/Stopping.antt =====
-- An agent of src/agent/agent.ts that is stopping.
use pdn_whatspac_client.Base.{
  ℕ, ◌+◌, ◌≡◌, refl, sym, subst, ap, inl, inr, Bool, true, false, Bool-cases, Option, none, some,
  List, [], ◌∷◌, map, Bytes, All, All-append, leb, ◌==◌, if◌then◌else◌,
}
use pdn_whatspac_client.Protocol.Pako.{Pako}
use pdn_whatspac_client.Agent.Script.{Runner, Action, send, on_done, on_error}
use pdn_whatspac_client.Protocol.Codec
use pdn_whatspac_client.Protocol.Codec.{Result, ok, err, WpsMessage}
use pdn_whatspac_client.Agent.Script
use pdn_whatspac_client.Agent.Lifecycle.{
  Config, Phase, connect, wps, Progress, nowhere, opening, scripting, sending, Agent, Effect,
  open_link, close_link, send_enquiry, send_keepalive, dispatches, reconnect_in, Event, starts,
  stops, open_failed, opened, data_, closed, connect_sent, connect_failed, script_timeout, tick,
  reconnect_due, schedule_reconnect, unless_stopping, ingest, perform, ingested, cancelled,
  to_runner, on_data, connect_sent_at, tick_effects, on_keepalive_tick, to_timeout, step, run,
}

-- The events that are no call of `connect()`: `start()` is one, and the reconnect timer, which
-- `stop()` clears.
abbrev pub IsOther : Event → Type 0
IsOther starts = ⊥
IsOther reconnect_due = ⊥
IsOther _ = Unit

-- It asks for no connection, now or later.
abbrev pub IsNoRetry : Effect → Type 0
IsNoRetry open_link = ⊥
IsNoRetry (reconnect_in ms) = ⊥
IsNoRetry _ = Unit

abbrev pub Quiet : Agent × List Effect → Type 0
Quiet (b, effects) = (b.stopping ≡ true) × All IsNoRetry effects

ingest-Quiet :
    (pako : Pako) (chunk : Bytes) (a : Agent) → a.stopping ≡ true → Quiet (ingest pako chunk a)
unfolding ingest
ingest-Quiet pako chunk a h = result (Codec.push pako a.reader chunk)
  where
    received : (ms : List WpsMessage) → All IsNoRetry (map dispatches ms)
    received [] = tt
    received (m ∷ ms) = (tt, received ms)

    dropped : (b : Bool) → All IsNoRetry (if b then close_link ∷ [] else [])
    dropped true = (tt, tt)
    dropped false = tt

    result : (r : Result (List WpsMessage × Bytes)) → Quiet (ingested r a)
    result (ok p) = (h, received p.0)
    result (err e) = (h, (tt, dropped a.link))

perform-Quiet : (actions : List Action) (a : Agent) → a.stopping ≡ true → Quiet (perform actions a)
perform-Quiet [] a h = (h, tt)
perform-Quiet (send bytes ∷ actions) a h = let (s, q) = perform-Quiet actions a h in (s, (tt, q))
perform-Quiet (on_done leftover ∷ actions) a h = elim (Bool-cases a.link) [
  | inl y ↦ rw y (h, (tt, tt))
  | inr n ↦ rw n (h, (tt, tt))
]
perform-Quiet (on_error i ∷ actions) a h = (h, (tt, tt))

runner-Quiet :
    (cfg : Config) (chunk : Bytes) (r : Option Runner) (a : Agent)
    → a.stopping ≡ true
    → Quiet (to_runner cfg chunk r a) × Quiet (to_timeout r a)
runner-Quiet cfg chunk none a h = ((h, tt), (h, tt))
runner-Quiet cfg chunk (some r) a h =
    let (q, actions) = Script.feed cfg.connect_script r chunk in
    let (t, more) = Script.on_timeout r in
    (
      perform-Quiet actions (record a { runner = some q }) h,
      perform-Quiet more (record a { runner = some t }) h,
    )

sent-Quiet :
    (pako : Pako) (p : Progress) (a : Agent) → a.stopping ≡ true → Quiet (connect_sent_at pako p a)
sent-Quiet pako nowhere a h = (h, tt)
sent-Quiet pako opening a h = (h, tt)
sent-Quiet pako scripting a h = (h, tt)
sent-Quiet pako (sending []) a h = (h, tt)
sent-Quiet pako (sending (b ∷ bs)) a h = ingest-Quiet pako (b ∷ bs) (record a { idle_ms = 0 }) h

data-Quiet :
    (pako : Pako) (cfg : Config) (chunk : Bytes) (p : Phase) (a : Agent)
    → a.stopping ≡ true
    → Quiet (on_data pako cfg chunk p a)
data-Quiet pako cfg chunk connect a h = (runner-Quiet cfg chunk a.runner a h).0
data-Quiet pako cfg chunk wps a h = ingest-Quiet pako chunk a h

tick_effects-NoRetry :
    (cfg : Config) (link : Bool) (now : ℕ) → All IsNoRetry (tick_effects cfg link now)
unfolding tick_effects
tick_effects-NoRetry cfg link now =
    cases (leb cfg.idle_cap_ms now) link (now == cfg.keep_alive_interval_ms)
  where
    cases :
        (b c d : Bool)
        → All IsNoRetry (
            if b
            then if c then close_link ∷ [] else []
            else if d
            then send_enquiry ∷ []
            else send_keepalive ∷ [])
    cases true true d = (tt, tt)
    cases true false d = tt
    cases false c true = (tt, tt)
    cases false c false = (tt, tt)

if-Quiet : (b : Bool) (p q : Agent × List Effect) → Quiet p → Quiet q → Quiet (if b then p else q)
if-Quiet true p q h k = h
if-Quiet false p q h k = k

unless_stopping-Quiet :
    (cfg : Config) (a : Agent) → a.stopping ≡ true → Quiet (unless_stopping cfg a)
unless_stopping-Quiet cfg a h =
    let e : (if a.stopping then (a, []) else schedule_reconnect cfg a) ≡ (a, []) =
      ap (λ b. if b then (a, []) else schedule_reconnect cfg a) h in
    subst Quiet (sym e) (h, tt)

step-Quiet :
    (pako : Pako) (cfg : Config) (e : Event) (a : Agent)
    → IsOther e
    → a.stopping ≡ true
    → Quiet (step pako cfg e a)
unfolding step
step-Quiet pako cfg starts a o h = absurd o
step-Quiet pako cfg reconnect_due a o h = absurd o
step-Quiet pako cfg stops a o h = elim (Bool-cases a.link) [
  | inl y ↦ rw y (refl, (tt, (tt, tt)))
  | inr n ↦ rw n (refl, (tt, tt))
]
step-Quiet pako cfg open_failed a o h =
    unless_stopping-Quiet cfg (record a { progress = nowhere }) h
step-Quiet pako cfg opened a o h = (h, tt)
step-Quiet pako cfg (data_ chunk) a o h = data-Quiet pako cfg chunk a.phase a h
step-Quiet pako cfg closed a o h =
    unless_stopping-Quiet cfg
      (record a { runner = cancelled a.runner; keepalive = false; link = false }) h
step-Quiet pako cfg connect_sent a o h = sent-Quiet pako a.progress a h
step-Quiet pako cfg connect_failed a o h = (h, (tt, tt))
step-Quiet pako cfg script_timeout a o h = (runner-Quiet cfg [] a.runner a h).1
step-Quiet pako cfg tick a o h =
    if-Quiet a.keepalive (on_keepalive_tick cfg a) (a, [])
      (h, tick_effects-NoRetry cfg a.link (a.idle_ms + cfg.keep_alive_interval_ms)) (h, tt)

-- Once it is stopping, nothing but another `start()`, or a reconnect timer that was not cleared,
-- makes the agent ask for a connection again.
pub run-Quiet :
    (pako : Pako) (cfg : Config) (es : List Event) (a : Agent)
    → All IsOther es
    → a.stopping ≡ true
    → Quiet (run pako cfg es a)
unfolding run
run-Quiet pako cfg [] a o h = (h, tt)
run-Quiet pako cfg (e ∷ es) a o h =
    let (s, q) = step-Quiet pako cfg e a o.0 h in
    let (t, p) = run-Quiet pako cfg es (step pako cfg e a).0 o.1 s in
    (t, All-append IsNoRetry (step pako cfg e a).1 (run pako cfg es (step pako cfg e a).0).1 q p)
