-- ===== src/Agent/Lifecycle/Backoff.antt =====
-- The waits between the attempts of src/agent/agent.ts to connect.
use pdn_whatspac_client.Base.{
  ℕ, zero, suc, ◌+◌, ◌*◌, ◌⊎◌, inl, inr, ◌^◌, ◌<◌, ◌≤◌, ◌≡◌, min, refl, ap, false, List, [], ◌∷◌,
  if◌then◌else◌, arith,
}
use pdn_whatspac_client.Protocol.Pako.{Pako}
use pdn_whatspac_client.Agent.Lifecycle.{
  Config, connecting, connect, nowhere, opening, Agent, Effect, open_link, reconnect_in, Event,
  open_failed, reconnect_due, delay, schedule_reconnect, unless_stopping, step, run,
}

-- So many failed attempts, and the timer after each.
pub failures : ℕ → List Event
failures zero = []
failures (suc n) = open_failed ∷ reconnect_due ∷ failures n

-- What they make the agent ask for, from the attempt with this number on.
pub retries : Config → ℕ → ℕ → List Effect
retries cfg k zero = []
retries cfg k (suc n) = reconnect_in (delay cfg k) ∷ open_link ∷ retries cfg (k + 1) n

unless_stopping-goes :
    (cfg : Config) (a : Agent)
    → a.stopping ≡ false
    → unless_stopping cfg a ≡ schedule_reconnect cfg a
unless_stopping-goes cfg a h = ap (λ b. if b then (a, []) else schedule_reconnect cfg a) h

retried : Agent → Agent
retried a = record a {
  status = connecting;
  phase = connect;
  reader = [];
  progress = opening;
  reconnect_attempt = a.reconnect_attempt + 1;
}

run-failure :
    (pako : Pako) (cfg : Config) (n : ℕ) (a : Agent)
    → a.stopping ≡ false
    → run pako cfg (failures (suc n)) a ≡ (
      (run pako cfg (failures n) (retried a)).0,
      reconnect_in (delay cfg a.reconnect_attempt)
          ∷ open_link
          ∷ (run pako cfg (failures n) (retried a)).1,
    )
unfolding run failures step retried
run-failure pako cfg n a h = rw (unless_stopping-goes cfg (record a { progress = nowhere }) h)

-- Each failure to open the link is followed by a wait, twice the last up to the maximum, and then
-- by another attempt, unless the agent is stopping.
pub run-failures :
    (pako : Pako) (cfg : Config) (n : ℕ) (a : Agent)
    → a.stopping ≡ false
    → let (b, effects) = run pako cfg (failures n) a in
      (effects ≡ retries cfg a.reconnect_attempt n)
      × (b.reconnect_attempt ≡ a.reconnect_attempt + n)
      × (b.stopping ≡ false)
unfolding retries retried
run-failures pako cfg zero a h = unfold run failures in (refl, omega arith, h)
run-failures pako cfg (suc n) a h =
    let (e, k, s) = run-failures pako cfg n (retried a) h in
    rw (run-failure pako cfg n a h)
      (ap (λ x. reconnect_in (delay cfg a.reconnect_attempt) ∷ open_link ∷ x) e, omega arith, s)

pow_pos : (k : ℕ) → 0 < 2 ^ k
pow_pos zero = omega arith
pow_pos (suc k) = omega (arith, pow_pos k)

-- `2 ^ k` is above `k`.
pow_above : (k : ℕ) → k < 2 ^ k
pow_above zero = omega arith
pow_above (suc k) = omega (arith, pow_above k)

scaled : (i k : ℕ) → i * 2 ^ (k + 1) ≡ 2 * (i * 2 ^ k)
scaled i k = let d : 2 ^ suc k ≡ 2 ^ k + 2 ^ k = omega arith in grind (arith, d)

reaches : (i m : ℕ) → (i ≡ 0) ⊎ (m ≤ i * 2 ^ m)
reaches zero m = inl refl
reaches (suc i) m = let p = pow_above m in inr (grind (arith, p))

-- The first wait is the first of the configuration, held to the maximum. Each later wait is twice
-- the one before it, held to the maximum, so the waits never get shorter and lie between the first
-- and the maximum. Where the first is not 0, the maximum is reached.
pub delay-IsBackoff :
    (cfg : Config) (k : ℕ)
    → (delay cfg 0 ≡ min cfg.reconnect_initial_ms cfg.reconnect_max_ms)
      × (delay cfg (k + 1) ≡ min (2 * delay cfg k) cfg.reconnect_max_ms)
      × (delay cfg k ≤ delay cfg (k + 1))
      × (delay cfg k ≤ cfg.reconnect_max_ms)
      × (min cfg.reconnect_initial_ms cfg.reconnect_max_ms ≤ delay cfg k)
      × ((cfg.reconnect_initial_ms ≡ 0) ⊎ (delay cfg cfg.reconnect_max_ms ≡ cfg.reconnect_max_ms))
unfolding delay
delay-IsBackoff cfg k =
    let initial = cfg.reconnect_initial_ms in
    let e = scaled initial k in
    let p = pow_pos k in
    (
      grind arith,
      omega (arith, e),
      omega (arith, e),
      omega arith,
      grind arith,
      elim (reaches initial cfg.reconnect_max_ms) [
        | inl z ↦ inl z
        | inr m ↦ inr (omega (arith, m))
      ],
    )
