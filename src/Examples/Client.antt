-- ===== src/Examples/Client.antt =====
-- src/agent/agent.ts and src/protocol/messages.ts on two messages of the server.
use pdn_whatspac_client.Base.{
  ◌≡◌, ◌≢◌, List, take, drop, index_of, starts_with, refl, true, [], ◌∷◌, ◌++◌, map, Bytes, codes,
  text_eq, arith,
}
use pdn_whatspac_client.Base.Chunks.{join}
use pdn_whatspac_client.Js.Json.{get, has_key}
use pdn_whatspac_client.Js.Json.Writer.{write, stringify}
use pdn_whatspac_client.Js.Base64.{bytes_to_base64, alphabet}
use pdn_whatspac_client.Js.Utf8.{encode, encode_point}
use pdn_whatspac_client.Protocol.Framing.{encode_payload}
use pdn_whatspac_client.Protocol.Codec.{encode_frame}
use pdn_whatspac_client.Protocol.Codec.RoundTrip.{stream, IsMessage}
use pdn_whatspac_client.Protocol.Messages.{Inbound, user_connected}
use pdn_whatspac_client.Protocol.Narrowing.Members.{message_fields}
use pdn_whatspac_client.Store.{empty}
use pdn_whatspac_client.Agent.Script.{ConnectScript, feed, latin1}
use pdn_whatspac_client.Agent.Script.Dialogue.{Holds, prompt, over}
use pdn_whatspac_client.Agent.Lifecycle.Connecting.{greeted, fed}
use pdn_whatspac_client.Agent.Client.Session.{written, run-serves}
use pdn_whatspac_client.Agent.Lifecycle.{
  Config, with_defaults, fresh, wps, data_, starts, opened, connect_sent, enter_running,
}
use pdn_whatspac_client.Agent.Dispatch.{dispatch_all}
use pdn_whatspac_client.Agent.Outbound.{Identity, natural, connect_object}
use pdn_whatspac_client.Agent.Client.{Client, opens_link, sends, heard_all, wire, run}
use pdn_whatspac_client.Agent.Client.Mirror.{run-mirrors}
use pdn_whatspac_client.Examples.Compression.{toy, toy-IsZlib}

abbrev who : Identity
who = record { callsign = 65 ∷ []; display_name = 65 ∷ []; version = natural 1 }

abbrev talking : Client
talking = record { agent = record fresh { link = true; phase = wps }; store = empty }

abbrev arrival : Inbound
arrival = user_connected (66 ∷ [])

-- `{"t":"uc","c":"B"}`.
abbrev frame : Bytes
frame = codes "{\"t\":\"uc\",\"c\":\"B\"}" ++ 13 ∷ []

arrival-IsMessage : IsMessage (message_fields arrival)
unfolding get has_key text_eq
arrival-IsMessage = (
  (
    (omega arith, tt),
    refl,
    (omega arith, (omega arith, tt)),
    ((omega arith, tt), refl, (omega arith, tt), tt),
  ),
  refl,
)

one_frame : join (frame ∷ (80 ∷ []) ∷ []) ≡ stream toy (message_fields arrival ∷ []) ++ 80 ∷ []
unfolding stream encode_frame encode_payload stringify write toy bytes_to_base64 alphabet text_eq
    encode encode_point
one_frame = refl

run-mirrors_example :
    let (t, events) = dispatch_all (arrival ∷ []) empty in
    run toy (with_defaults []) who (map (λ x. wire (data_ x)) (frame ∷ (80 ∷ []) ∷ [])) talking ≡ (
      record { agent = record (talking.agent) { reader = 80 ∷ [] }; store = t },
      heard_all true events,
    )
run-mirrors_example =
    run-mirrors toy (with_defaults []) who (arrival ∷ []) (80 ∷ []) (frame ∷ (80 ∷ []) ∷ []) talking
      toy-IsZlib refl (tt, tt) (arrival-IsMessage, tt) tt (refl, tt) one_frame

-- Wait for `>`, send `B`, and wait for `:`; behind it, the first data holds the start of a frame.
abbrev script : ConnectScript
script = record { cmd = 65 ∷ []; val = 62 ∷ [] } ∷ record { cmd = 66 ∷ []; val = 58 ∷ [] } ∷ []

abbrev cfg : Config
cfg = with_defaults script

abbrev first : Bytes
first = 62 ∷ 58 ∷ codes "{\"t\""

abbrev others : List Bytes
others = (codes ":\"uc\"," ++ codes "\"c\":\"B\"}") ∷ (13 ∷ 80 ∷ []) ∷ []

some_script : script ≢ []
some_script e = cc e

first-Holds : Holds (codes "{\"t\"") script first
first-Holds = prompt [] (58 ∷ codes "{\"t\"") refl (prompt [] (codes "{\"t\"") refl (over refl))

whole :
    latin1 (fed toy cfg first fresh).0.text ++ join others
    ≡ stream toy (message_fields arrival ∷ []) ++ 80 ∷ []
unfolding feed index_of starts_with stream encode_frame encode_payload stringify write toy
    bytes_to_base64 alphabet text_eq encode encode_point
whole = refl

run-serves_example :
    let q = (fed toy cfg first fresh).0 in
    let (t, events) = dispatch_all (arrival ∷ []) empty in
    run toy cfg who
      (wire starts
        ∷ wire opened
        ∷ wire (data_ first)
        ∷ wire connect_sent
        ∷ map (λ x. wire (data_ x)) others)
      (record { agent = fresh; store = empty })
    ≡ (
      record { agent = record (enter_running (greeted q fresh)) { reader = 80 ∷ [] }; store = t },
      opens_link
            ∷ (written (take q.hop_index (drop 1 script)) ++ sends (connect_object who empty) ∷ [])
          ++ heard_all true events,
    )
run-serves_example =
    run-serves toy cfg who first (codes "{\"t\"") (arrival ∷ []) (80 ∷ []) others fresh empty
      toy-IsZlib some_script first-Holds (tt, tt) (arrival-IsMessage, tt) (refl, tt) whole
