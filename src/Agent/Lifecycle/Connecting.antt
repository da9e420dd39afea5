-- ===== src/Agent/Lifecycle/Connecting.antt =====
-- An attempt of src/agent/agent.ts to connect that comes through.
use pdn_whatspac_client.Base.{
  ◌≡◌, ◌≢◌, refl, ap, ◌∙◌, true, false, some, List, [], ◌∷◌, ◌++◌, append-nil, Bytes, Text, take,
  drop, if◌then◌else◌,
}
use pdn_whatspac_client.Protocol.Pako.{Pako}
use pdn_whatspac_client.Agent.Script.{
  Hop, Runner, Action, send, on_done, new, start, command, latin1,
}
use pdn_whatspac_client.Agent.Script
use pdn_whatspac_client.Agent.Script.Dialogue.{Holds, feed-finishes}
use pdn_whatspac_client.Agent.Script.Sends.{sends, closing, feed-sends}
use pdn_whatspac_client.Agent.Lifecycle.{
  Config, connecting, running, connect, wps, scripting, sending, Agent, Effect, open_link, transmit,
  send_connect_object, starts, opened, data_, connect_sent, enter_wps, perform, runs,
  finish_connect, step, run,
}

-- The agent once its link is open.
abbrev pub linked : Agent → Agent
linked a = record a {
  stopping = false;
  status = connecting;
  phase = connect;
  reader = [];
  link = true;
  runner = some (start new);
  progress = scripting;
}

-- And once the script is over and the connect object is on its way.
abbrev pub greeted : Runner → Agent → Agent
greeted r a = record (linked a) { runner = some r; phase = wps; progress = sending (latin1 r.text) }

abbrev pub commands : List Hop → List Effect
commands [] = []
commands (h ∷ hs) = transmit (command h) ∷ commands hs

perform-sends :
    (hs : List Hop) (left : Bytes) (a : Agent)
    → perform (sends hs ++ on_done left ∷ []) a
      ≡ ((enter_wps left a).0, commands hs ++ (enter_wps left a).1)
perform-sends [] left a = refl
perform-sends (h ∷ hs) left a = rw (perform-sends hs left a)

closing-finished : (r : Runner) → r.finished ≡ true → closing r ≡ on_done (latin1 r.text) ∷ []
closing-finished r f = ap (λ b. if b then on_done (latin1 r.text) ∷ [] else []) f

module _ (pako : Pako) (cfg : Config) (c : Bytes) (a : Agent) where
  abbrev pub fed : Runner × List Action
  fed = Script.feed cfg.connect_script (start new) c

  pub fed-greeted :
      cfg.connect_script ≢ []
      → fed.0.finished ≡ true
      → runs (linked a) fed ≡ (
        greeted fed.0 a,
        commands (take fed.0.hop_index (drop 1 cfg.connect_script)) ++ send_connect_object ∷ [],
      )
  fed-greeted ne f =
      let e =
        feed-sends cfg.connect_script c
        ∙ ap (◌++◌ (sends (take fed.0.hop_index (drop 1 cfg.connect_script))))
            (closing-finished fed.0 f) in
      let b = record (linked a) { runner = some fed.0 } in
      ap (λ x. perform x b) e
      ∙ perform-sends (take fed.0.hop_index (drop 1 cfg.connect_script)) (latin1 fed.0.text) b

  finish_connect-running :
      (left : Bytes) (b : Agent)
      → ((finish_connect pako left b).0.status ≡ running)
        × ((finish_connect pako left b).0.keepalive ≡ true)
        × ((finish_connect pako left b).0.reconnect_attempt ≡ 0)
  finish_connect-running [] b = (refl, refl, refl)
  finish_connect-running (x ∷ left) b = (refl, refl, refl)

  -- The text that the first data brings lets the script come to its end, and the connect object
  -- is sent: the agent asks for the link, sends the commands of the hops that the text answers and
  -- then the connect object, and is then running, with the heartbeat on and no failures counted.
  pub run-connects :
      (left : Text)
      → cfg.connect_script ≢ []
      → Holds left cfg.connect_script c
      → let (b, effects) = run pako cfg (starts ∷ opened ∷ data_ c ∷ []) a in
        (effects
          ≡ open_link ∷ commands (take fed.0.hop_index (drop 1 cfg.connect_script))
            ++ send_connect_object ∷ [])
        × ((step pako cfg connect_sent b).0.status ≡ running)
        × ((step pako cfg connect_sent b).0.keepalive ≡ true)
        × ((step pako cfg connect_sent b).0.reconnect_attempt ≡ 0)
  unfolding run step
  run-connects left ne d =
      let f = (feed-finishes cfg.connect_script c ne).1 (left, d) in
      let (x, y, z) =
        finish_connect-running (latin1 fed.0.text) (record (greeted fed.0 a) { idle_ms = 0 }) in
      rw (fed-greeted ne f) (
        ap (◌∷◌ open_link) (
            append-nil (
              commands (take fed.0.hop_index (drop 1 cfg.connect_script))
              ++ send_connect_object ∷ [])),
        x,
        y,
        z,
      )
