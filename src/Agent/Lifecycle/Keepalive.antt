-- ===== src/Agent/Lifecycle/Keepalive.antt =====
-- The idle heartbeat of src/agent/agent.ts.
use pdn_whatspac_client.Base.{
  ℕ, zero, suc, ◌+◌, ◌*◌, ◌<◌, ◌≡◌, refl, ap, ◌∙◌, Bool, true, false, List, [], ◌∷◌, leb, ◌==◌,
  if◌then◌else◌, arith,
}
use pdn_whatspac_client.Protocol.Pako.{Pako}
use pdn_whatspac_client.Agent.Lifecycle.{
  Config, Agent, Effect, close_link, send_enquiry, send_keepalive, Event, tick, tick_effects,
  on_keepalive_tick, step, run,
}

pub ticks : ℕ → List Event
ticks zero = []
ticks (suc n) = tick ∷ ticks n

-- What the i-th idle tick is to do.
pub heartbeat : Config → ℕ → Effect
heartbeat cfg i =
    if leb cfg.idle_cap_ms (i * cfg.keep_alive_interval_ms)
    then close_link
    else if i == 1
    then send_enquiry
    else send_keepalive

pub heartbeats : Config → ℕ → ℕ → List Effect
heartbeats cfg i zero = []
heartbeats cfg i (suc n) = heartbeat cfg (i + 1) ∷ heartbeats cfg (i + 1) n

first_tick : (i v was : ℕ) → 0 < v → was ≡ i * v → (was + v == v) ≡ (i + 1 == 1)
first_tick zero v was pos e = ground arith
first_tick (suc i) v was pos e = let z : (suc i) * v ≡ i * v + v = omega arith in ground (arith, z)

tick_effects-heartbeat :
    (cfg : Config) (i was : ℕ)
    → 0 < cfg.keep_alive_interval_ms
    → was ≡ i * cfg.keep_alive_interval_ms
    → tick_effects cfg true (was + cfg.keep_alive_interval_ms) ≡ heartbeat cfg (i + 1) ∷ []
unfolding tick_effects heartbeat
tick_effects-heartbeat cfg i was pos e =
    let z : (i + 1) * cfg.keep_alive_interval_ms ≡ was + cfg.keep_alive_interval_ms = omega arith in
    rw (z, first_tick i cfg.keep_alive_interval_ms was pos e)
      (same (leb cfg.idle_cap_ms (was + cfg.keep_alive_interval_ms)) (i + 1 == 1))
  where
    same :
        (b c : Bool)
        → (if b then close_link ∷ [] else if c then send_enquiry ∷ [] else send_keepalive ∷ [])
          ≡ (if b then close_link else if c then send_enquiry else send_keepalive) ∷ []
    same true c = refl
    same false true = refl
    same false false = refl

ticks-go :
    (pako : Pako) (cfg : Config) (a : Agent)
    → a.keepalive ≡ true
    → (if a.keepalive then on_keepalive_tick cfg a else (a, [])) ≡ on_keepalive_tick cfg a
ticks-go pako cfg a k = ap (λ b. if b then on_keepalive_tick cfg a else (a, [])) k

-- With the heartbeat on, an interval above 0 and the link up, each idle tick asks for one thing: the first for an avatar enquiry, the others for a
-- keepalive, and those at the idle cap or past it for the link to be closed.
pub run-ticks :
    (pako : Pako) (cfg : Config) (n i : ℕ) (a : Agent)
    → 0 < cfg.keep_alive_interval_ms
    → a.keepalive ≡ true
    → a.link ≡ true
    → a.idle_ms ≡ i * cfg.keep_alive_interval_ms
    → (run pako cfg (ticks n) a).1 ≡ heartbeats cfg i n
unfolding run ticks heartbeats step
run-ticks pako cfg zero i a pos k l e = refl
run-ticks pako cfg (suc n) i a pos k l e =
    let z : a.idle_ms + cfg.keep_alive_interval_ms ≡ (i + 1) * cfg.keep_alive_interval_ms =
      omega arith in
    let here =
      ap (λ b. tick_effects cfg b (a.idle_ms + cfg.keep_alive_interval_ms)) l
      ∙ tick_effects-heartbeat cfg i a.idle_ms pos e in
    rw (ticks-go pako cfg a k, here)
      (ap (◌∷◌ (heartbeat cfg (i + 1))) (
        run-ticks pako cfg n (i + 1) (record a { idle_ms = a.idle_ms + cfg.keep_alive_interval_ms })
          pos k l z))
