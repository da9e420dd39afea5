-- ===== src/Examples/Agent.antt =====
-- src/agent on a script of two hops.
use pdn_whatspac_client.Base.{
  ◌⊎◌, ◌*◌, ◌+◌, ◌≡◌, ◌≢◌, ◌≤◌, ◌↔◌, refl, true, false, min, none, some, [], ◌∷◌, ◌++◌, take, drop,
  Text, Bytes, All, text_eq, if◌then◌else◌, arith,
}
use pdn_whatspac_client.Agent.Script.{ConnectScript, new, start, feed}
use pdn_whatspac_client.Base.{index_of, starts_with}
use pdn_whatspac_client.Agent.Script.Dialogue.{
  Holds, over, prompt, and_then, feed-append, feed-finishes,
}
use pdn_whatspac_client.Agent.Lifecycle.{
  Config, with_defaults, running, Agent, fresh, open_link, send_connect_object, starts, stops,
  opened, data_, connect_sent, open_failed, delay, step, run,
}
use pdn_whatspac_client.Agent.Lifecycle.Backoff.{failures, retries, run-failures, delay-IsBackoff}
use pdn_whatspac_client.Agent.Lifecycle.Keepalive.{ticks, heartbeats, run-ticks}
use pdn_whatspac_client.Agent.Lifecycle.Stopping.{IsNoRetry, run-Quiet}
use pdn_whatspac_client.Agent.Lifecycle.Connecting.{commands, run-connects}
use pdn_whatspac_client.Agent.Dispatch.{name_enquiry, dispatch}
use pdn_whatspac_client.Agent.Dispatch.Replay.{AreApart, dispatch-again}
use pdn_whatspac_client.Js.Json.Numbers.{write_nat}
use pdn_whatspac_client.Agent.Dispatch.Effects.{dispatch-avatar}
use pdn_whatspac_client.Js.Json.{Fields}
use pdn_whatspac_client.Protocol.Narrowing.{narrow}
use pdn_whatspac_client.Agent.Outbound.Echo.{row_of, sent_as, send_direct_message-dispatch}
use pdn_whatspac_client.Agent.Outbound.{Identity, natural, send_direct_message}
use pdn_whatspac_client.Protocol.Messages.{
  DirectMessage, Avatar, Inbound, direct_message, dm_backfill, avatar,
}
use pdn_whatspac_client.Store.{empty, ham_unknown}
use pdn_whatspac_client.Examples.Compression.{toy}

-- Wait for `>`, send `B`, and wait for `:`.
abbrev script : ConnectScript
script = record { cmd = 65 ∷ []; val = 62 ∷ [] } ∷ record { cmd = 66 ∷ []; val = 58 ∷ [] } ∷ []

abbrev answer : Bytes
answer = 62 ∷ 58 ∷ 10 ∷ []

abbrev cfg : Config
cfg = with_defaults script

some_script : script ≢ []
some_script e = cc e

answer-Holds : Holds (10 ∷ []) script answer
answer-Holds = prompt [] (58 ∷ 10 ∷ []) refl (prompt [] (10 ∷ []) refl (over refl))

feed-finishes_example :
    ((feed script (start new) answer).0.finished ≡ true)
    ↔ ((left : Text) × Holds left script answer)
feed-finishes_example = feed-finishes script answer some_script

one_hop : (feed script (start new) (62 ∷ [])).0.finished ≡ false
unfolding feed index_of starts_with
one_hop = refl

feed-append_example :
    and_then (feed script (start new) (62 ∷ [])) (λ q. feed script q (58 ∷ 10 ∷ []))
    ≡ feed script (start new) answer
feed-append_example = feed-append script (start new) (62 ∷ []) (58 ∷ 10 ∷ []) refl one_hop

run-connects_example :
    let (b, effects) = run toy cfg (starts ∷ opened ∷ data_ answer ∷ []) fresh in
    (effects
      ≡ open_link ∷ commands (take (feed script (start new) answer).0.hop_index (drop 1 script))
        ++ send_connect_object ∷ [])
    × ((step toy cfg connect_sent b).0.status ≡ running)
    × ((step toy cfg connect_sent b).0.keepalive ≡ true)
    × ((step toy cfg connect_sent b).0.reconnect_attempt ≡ 0)
run-connects_example = run-connects toy cfg answer fresh (10 ∷ []) some_script answer-Holds

run-failures_example :
    let (b, effects) = run toy cfg (failures 8) fresh in
    (effects ≡ retries cfg 0 8) × (b.reconnect_attempt ≡ 0 + 8) × (b.stopping ≡ false)
run-failures_example = run-failures toy cfg 8 fresh refl

delay-IsBackoff_example :
    (delay cfg 0 ≡ 1000)
    × (delay cfg 4 ≡ min (2 * delay cfg 3) 60000)
    × (delay cfg 3 ≤ delay cfg 4)
    × (delay cfg 3 ≤ 60000)
    × (1000 ≤ delay cfg 3)
    × ((cfg.reconnect_initial_ms ≡ 0) ⊎ (delay cfg 60000 ≡ 60000))
delay-IsBackoff_example = delay-IsBackoff cfg 3

abbrev idling : Agent
idling = record fresh { link = true; keepalive = true; status = running }

run-ticks_example : (run toy cfg (ticks 27) idling).1 ≡ heartbeats cfg 0 27
run-ticks_example = run-ticks toy cfg 27 0 idling (omega arith) refl refl (omega arith)

run-Quiet_example :
    let (b, effects) = run toy cfg (stops ∷ open_failed ∷ []) (record fresh { stopping = true }) in
    (b.stopping ≡ true) × All IsNoRetry effects
run-Quiet_example =
    run-Quiet toy cfg (stops ∷ open_failed ∷ []) (record fresh { stopping = true }) (tt, (tt, tt))
      refl

abbrev hi : DirectMessage
hi = record { fc = 65 ∷ []; tc = 66 ∷ []; m = 104 ∷ []; ts = some 7; id = none; r = none }

abbrev face : Avatar
face = record { c = some (66 ∷ []); a = some (97 ∷ []); ts = some 3; ac = none }

dispatch-avatar_example :
    (dispatch (avatar face) empty).1
    ≡ (if ham_unknown (66 ∷ []) empty then name_enquiry (66 ∷ []) ∷ [] else [])
dispatch-avatar_example = dispatch-avatar 66 [] face empty refl refl

abbrev me : Identity
me = record { callsign = 65 ∷ []; display_name = 97 ∷ []; version = natural 1 }

send_direct_message-dispatch_example :
    let o = send_direct_message me true 7000 7001 (66 ∷ []) (104 ∷ []) empty in
    (o.store ≡ record empty { messages = row_of me 7000 7001 (66 ∷ []) (104 ∷ []) ∷ [] })
    × (send_direct_message me false 7000 7001 (66 ∷ []) (104 ∷ []) empty
        ≡ record { store = o.store; sent = none })
    × ((fields : Fields) × (o.sent ≡ some fields)
        × (narrow fields ≡ some (direct_message (sent_as me 7000 7001 (66 ∷ []) (104 ∷ [])))))
    × ((dispatch (direct_message (sent_as me 7000 7001 (66 ∷ []) (104 ∷ []))) o.store).0 ≡ o.store)
send_direct_message-dispatch_example =
    send_direct_message-dispatch me 7000 7001 (66 ∷ []) (104 ∷ []) empty tt

-- Two messages that the server sends again.
abbrev backfill : Inbound
backfill = dm_backfill (hi ∷ record hi { ts = some 8 } ∷ [])

backfill-AreApart : AreApart backfill
unfolding write_nat text_eq
backfill-AreApart = ((refl, tt), (tt, tt))

dispatch-again_example : dispatch backfill (dispatch backfill empty).0 ≡ dispatch backfill empty
dispatch-again_example = dispatch-again backfill empty backfill-AreApart
