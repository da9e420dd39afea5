-- ===== src/Examples/Daemon.antt =====
-- src/config.ts, src/main.ts, src/rhp/client.ts and src/heads/web/app.ts on short inputs.
use pdn_whatspac_client.Base.{
  ℕ, ◌≡◌, refl, true, false, Option, none, some, List, [], ◌∷◌, ◌++◌, Text, codes, text_eq,
  if◌then◌else◌,
}
use pdn_whatspac_client.Js.Json.{arr}
use pdn_whatspac_client.Js.Trim.{is_blank}
use pdn_whatspac_client.Rhp.Requests.{ax25}
use pdn_whatspac_client.Rhp.Link.{Options, new, Event, dialled, socket_over}
use pdn_whatspac_client.Rhp.Link
use pdn_whatspac_client.Rhp.Link.Opens.{
  answers, links, destroyed, is_over, is_linked, is_failed, IsHeld,
}
use pdn_whatspac_client.Rhp.Link.Opening.{run-opens_once}
use pdn_whatspac_client.Agent.Script.{validate_connect_script}
use pdn_whatspac_client.Agent.Lifecycle.{running}
use pdn_whatspac_client.Agent.Outbound.{Identity, natural, post_to_channel}
use pdn_whatspac_client.Store.{empty}
use pdn_whatspac_client.Store.Queries.{list_posts}
use pdn_whatspac_client.Util.Emitter.{emit, on, has}
use pdn_whatspac_client.Store.Rows.{upsert, find}
use pdn_whatspac_client.Web.App.{may_mutate, post_posts, handle, awaited}
use pdn_whatspac_client.Web.App
use pdn_whatspac_client.Web.Reads.{
  posts_of, body_of, array, post_object, posted_row, text_body, handle-posts_of,
}
use pdn_whatspac_client.Web.Events.{emitted, aborted, open_stream, status_payload}
use pdn_whatspac_client.Web.Events
use pdn_whatspac_client.Web.Events.Closing.{run-leaves_nothing}
use pdn_whatspac_client.Config.{
  Environment, env, script_from_parts, load_connect_script, config_of, load_config, Config,
}
use pdn_whatspac_client.Config.Usable.{IsUsable, load_config-IsUsable}
use pdn_whatspac_client.Main.{up, signal, agent_stopped, web_closed, rf_closed}
use pdn_whatspac_client.Main.Shutdown.{ShutsDown, run-ShutsDown}
use pdn_whatspac_client.Main

-- Only the callsign is set.
abbrev callsign_alone : Environment
callsign_alone name =
    if text_eq name (codes "WHATSPACD_CALLSIGN") then some (codes "M0XYZ") else none

abbrev no_numbers : Text → Option ℕ
no_numbers s = none

abbrev id : ℕ → ℕ
id n = n

abbrev beside : Text → Text → Text
beside a b = a ++ 47 ∷ b

abbrev defaults : Config ℕ no_numbers id beside
defaults =
    config_of ℕ no_numbers id beside callsign_alone (codes "M0XYZ") ax25 (some 9000)
      (script_from_parts callsign_alone) (some 18900)

load_config-IsUsable_example : IsUsable ℕ no_numbers id beside defaults
unfolding load_config load_connect_script env text_eq validate_connect_script
load_config-IsUsable_example =
    load_config-IsUsable ℕ no_numbers id beside callsign_alone defaults refl

-- A head that closes before the signal is none that settles behind it.
abbrev signals : List Main.Event
signals = web_closed ∷ signal ∷ agent_stopped ∷ signal ∷ rf_closed ∷ web_closed ∷ rf_closed ∷ []

run-ShutsDown_example : ShutsDown signals (Main.run signals up)
run-ShutsDown_example = run-ShutsDown signals

abbrev options : Options
options = record {
  auth = some (codes "u", codes "p");
  open_ = record { family = ax25; local = none; remote = codes "GB7NBH"; port = none };
}

run-opens_once_example :
    let (t, outputs) = Link.run options (dialled ∷ socket_over ∷ []) new in
    (answers outputs ≡ is_over t.phase)
    × (links outputs ≡ is_linked t.phase)
    × (destroyed outputs ≡ is_failed t.phase)
    × IsHeld t.phase t.connection
run-opens_once_example = run-opens_once options (dialled ∷ socket_over ∷ [])

abbrev who : Identity
who = record { callsign = 65 ∷ []; display_name = 65 ∷ []; version = natural 1 }

handle-posts_of_example :
    let t = (post_to_channel who true 5 (120 ∷ []) (104 ∷ []) empty).store in
    (handle true none (post_posts (120 ∷ [])) (some (text_body (104 ∷ [])))
      ≡ awaited true (App.post_to_channel (120 ∷ []) (104 ∷ [])) 201)
    × (body_of running (65 ∷ []) t (posts_of (120 ∷ []))
        ≡ arr (
            array
              (post_object t)
              (posted_row who 5 (120 ∷ []) (104 ∷ []) ∷ list_posts (120 ∷ []) 99 empty)))
unfolding may_mutate is_blank
handle-posts_of_example =
    handle-posts_of who true 5 (120 ∷ []) (104 ∷ []) none running empty refl refl tt tt

not_there : has 2 (emit (codes "post") (on (codes "post") 1 [])) ≡ false
unfolding has emit on upsert find text_eq
not_there = refl

run-leaves_nothing_example :
    let s =
      (Events.run 2
        (emitted (codes "post") (natural 1) ∷ [])
        (open_stream 2 (codes "idle") (on (codes "post") 1 [])).0).0 in
    let (t, frames) = Events.run 2 (aborted ∷ aborted ∷ []) s in
    (frames ≡ []) × (emit (codes "post") t.listeners ≡ emit (codes "post") (on (codes "post") 1 []))
run-leaves_nothing_example =
    run-leaves_nothing 2 (codes "idle") (on (codes "post") 1 [])
      (emitted (codes "post") (natural 1) ∷ []) (aborted ∷ []) (codes "post") not_there
