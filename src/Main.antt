-- ===== src/Main.antt =====
-- The shutdown of src/main.ts: `Promise.allSettled` of stopping the agent and closing the two heads,
-- then the store and the process.
pub mod Shutdown
use pdn_whatspac_client.Base.{
  ℕ, ◌+◌, ◌≡◌, ap, ◌⊎◌, refl, inr, Bool, true, false, ◌&&◌, not, List, [], ◌∷◌, ◌++◌, if◌then◌else◌,
  arith,
}

pub record Daemon : Type 0 where
  pub shutting_down : Bool
  pub agent_settled : Bool
  pub web_settled : Bool
  pub rf_settled : Bool
  pub store_open : Bool
  pub exited : Bool

abbrev pub up : Daemon
up = record {
  shutting_down = false;
  agent_settled = false;
  web_settled = false;
  rf_settled = false;
  store_open = true;
  exited = false;
}

-- A signal, SIGINT or SIGTERM; and the promise of a part that settles, whether it closed well or
-- not.
pub data Event : Type 0 where
  signal agent_stopped web_closed rf_closed : Event

pub data Effect : Type 0 where
  stops_agent closes_web closes_rf closes_store exits : Effect

-- `shutdown`.
abbrev pub shutdown : Daemon → Daemon × List Effect
shutdown d =
    if d.shutting_down
    then (d, [])
    else (record d { shutting_down = true }, stops_agent ∷ closes_web ∷ closes_rf ∷ [])

abbrev pub all_settled : Daemon → Bool
all_settled d = d.shutting_down && (d.agent_settled && (d.web_settled && d.rf_settled))

-- The `then` of `allSettled`, once.
abbrev pub when_settled : Daemon → Daemon × List Effect
when_settled d =
    if all_settled d && not d.exited
    then (record d { store_open = false; exited = true }, closes_store ∷ exits ∷ [])
    else (d, [])

-- A part's promise is there once the shutdown has begun.
abbrev pub settles : Daemon → Daemon → Daemon × List Effect
settles d after = if d.shutting_down then when_settled after else (d, [])

unfoldable pub step : Event → Daemon → Daemon × List Effect
step signal d = shutdown d
step agent_stopped d = settles d (record d { agent_settled = true })
step web_closed d = settles d (record d { web_settled = true })
step rf_closed d = settles d (record d { rf_settled = true })

unfoldable pub run : List Event → Daemon → Daemon × List Effect
run [] d = (d, [])
run (e ∷ es) d = let (f, effects) = step e d in let (g, more) = run es f in (g, effects ++ more)
