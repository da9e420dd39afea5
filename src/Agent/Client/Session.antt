-- ===== src/Agent/Client/Session.antt =====
-- A session of src/agent/agent.ts from its start: the link, the script, the connect object, and the
-- stream of the server.
use pdn_whatspac_client.Base.{
  ◌≡◌, ◌≢◌, refl, sym, ap, ◌∙◌, true, List, [], ◌∷◌, ◌++◌, map, Bytes, Text, All, take, drop,
}
use pdn_whatspac_client.Base.Chunks.{join}
use pdn_whatspac_client.Base.Splits.{NotIn}
use pdn_whatspac_client.Protocol.Pako.{Pako, IsZlib}
use pdn_whatspac_client.Protocol.Framing.{terminator}
use pdn_whatspac_client.Protocol.Codec.{ok, ◌>>=◌, WpsMessage, push}
use pdn_whatspac_client.Protocol.Codec.RoundTrip.{read_all, IsMessage, stream}
use pdn_whatspac_client.Protocol.Messages.{Inbound}
use pdn_whatspac_client.Protocol.Narrowing.Members.{message_fields, IsTyped}
use pdn_whatspac_client.Store.{Store}
use pdn_whatspac_client.Agent.Script.{Hop, command, latin1}
use pdn_whatspac_client.Agent.Script.Dialogue.{Holds, feed-finishes}
use pdn_whatspac_client.Agent.Lifecycle.{
  Config, Agent, Effect, send_connect_object, starts, opened, data_, connect_sent, wps, dispatches,
  enter_running, then_running, ingested, ingest, finish_connect,
}
use pdn_whatspac_client.Agent.Lifecycle
use pdn_whatspac_client.Agent.Lifecycle.Connecting.{greeted, commands, fed, fed-greeted}
use pdn_whatspac_client.Agent.Dispatch.{dispatch_all}
use pdn_whatspac_client.Agent.Outbound.{Identity, connect_object}
use pdn_whatspac_client.Agent.Client.{
  Client, Output, opens_link, writes, sends, heard_all, perform, perform_all, performed, wire, step,
  run,
}
use pdn_whatspac_client.Agent.Client.Mirror.{
  read_all-resumes, on_messages, perform_all-dispatches, on_messages-append, ok-injective, bind-ok,
  chunks, run-read_all, on_messages-dispatch_all,
}

abbrev pub written : List Hop → List Output
written [] = []
written (h ∷ hs) = writes (command h) ∷ written hs

perform_all-commands :
    (who : Identity) (hs : List Hop) (s : Store)
    → perform_all who true (commands hs ++ send_connect_object ∷ []) s
      ≡ (s, written hs ++ sends (connect_object who s) ∷ [])
unfolding perform_all perform
perform_all-commands who [] s = refl
perform_all-commands who (h ∷ hs) s =
    ap (λ q. (q.0, writes (command h) ∷ q.1)) (perform_all-commands who hs s)

-- One thing after another.
abbrev and_then : Client × List Output → (Client → Client × List Output) → Client × List Output
and_then (c, outputs) f = let (d, more) = f c in (d, outputs ++ more)

module _ (pako : Pako) (cfg : Config) (who : Identity) (b : Agent) (s : Store) where
  abbrev rest : List Bytes → Client → Client × List Output
  rest cs c = run pako cfg who (chunks pako cfg who cs) c

  -- The agent runs, with these bytes in its reader, after these messages.
  abbrev running_after : List WpsMessage → Bytes → Client × List Output
  running_after ms r =
      let (t, outputs) = on_messages b.link ms s in
      (record { agent = record (enter_running b) { reader = r }; store = t }, outputs)

  -- What the script left over comes before what the link brings.
  abbrev pieces : Bytes → List Bytes → List Bytes
  pieces [] cs = cs
  pieces (x ∷ left) cs = (x ∷ left) ∷ cs

  finish_connect-reads :
      (left : Bytes) (cs : List Bytes) (ms : List WpsMessage) (r : Bytes)
      → b.phase ≡ wps
      → read_all pako b.reader (pieces left cs) ≡ ok (ms, r)
      → and_then (performed who b.link (finish_connect pako left b) s) (rest cs)
        ≡ running_after ms r
  unfolding perform_all read_all ingest
  finish_connect-reads [] cs ms r w e =
      run-read_all pako cfg who cs (record { agent = enter_running b; store = s }) ms r w e
  finish_connect-reads (x ∷ left) cs ms r w e =
      let (p, pushed, more) =
        bind-ok (push pako b.reader (x ∷ left))
          (λ p. read_all pako p.1 cs >>= λ q. ok (p.0 ++ q.0, q.1)) (ms, r) e in
      let (q, others, ends) =
        bind-ok (read_all pako p.1 cs) (λ q. ok (p.0 ++ q.0, q.1)) (ms, r) more in
      let (t, outputs) = on_messages b.link p.0 s in
      let c : Client = record { agent = enter_running (record b { reader = p.1 }); store = t } in
      ap (λ z. and_then (performed who b.link (then_running (ingested z b)) s) (rest cs)) pushed
      ∙ ap
          (λ z.
            and_then
              (record { agent = enter_running (record b { reader = p.1 }); store = z.0 }, z.1)
              (rest cs))
          (perform_all-dispatches who b.link p.0 s)
      ∙ ap (λ z. (z.0, outputs ++ z.1)) (run-read_all pako cfg who cs c q.0 q.1 w others)
      ∙ ap (λ z. (record { agent = record (enter_running b) { reader = q.1 }; store = z.0 }, z.1))
          (sym (on_messages-append b.link p.0 q.0 s))
      ∙ ap (λ z. running_after z.0 z.1) (ok-injective (p.0 ++ q.0, q.1) (ms, r) ends)

  join-pieces : (left : Bytes) (cs : List Bytes) → join (pieces left cs) ≡ left ++ join cs
  join-pieces [] cs = refl
  join-pieces (x ∷ left) cs = refl

-- The first data lets the script come to its end, and the connect object is sent. What the script
-- leaves over and what the link then brings, in chunks of any size, are the frames of messages that
-- JSON text can hold and a part of one more. Then the agent asks for the link, sends the commands of
-- the script and the connect object with the store's cursors, is running, with the heartbeat on and
-- no failures counted, and has taken each message into the store once and in order, and the heads
-- have heard of them; and that part is in its reader.
pub run-serves :
    (pako : Pako) (cfg : Config) (who : Identity) (c : Bytes) (left : Text) (ms : List Inbound)
    (r : Bytes) (cs : List Bytes) (a : Agent) (s : Store)
    → IsZlib pako
    → cfg.connect_script ≢ []
    → Holds left cfg.connect_script c
    → All IsTyped ms
    → All IsMessage (map message_fields ms)
    → NotIn terminator r
    → latin1 (fed pako cfg c a).0.text ++ join cs ≡ stream pako (map message_fields ms) ++ r
    → let q = (fed pako cfg c a).0 in
      let (t, events) = dispatch_all ms s in
      run pako cfg who
        (wire starts
          ∷ wire opened
          ∷ wire (data_ c)
          ∷ wire connect_sent
          ∷ map (λ x. wire (data_ x)) cs)
        (record { agent = a; store = s })
      ≡ (
        record { agent = record (enter_running (greeted q a)) { reader = r }; store = t },
        opens_link
              ∷ (written (take q.hop_index (drop 1 cfg.connect_script))
                  ++ sends (connect_object who s) ∷ [])
            ++ heard_all true events,
      )
unfolding run step Lifecycle.step perform_all perform
run-serves pako cfg who c left ms r cs a s zlib ne d typed fine k e =
    let q = (fed pako cfg c a).0 in
    let f = (feed-finishes cfg.connect_script c ne).1 (left, d) in
    let hops = take q.hop_index (drop 1 cfg.connect_script) in
    let b = record (greeted q a) { idle_ms = 0 } in
    let kept = latin1 q.text in
    let read =
      read_all-resumes pako zlib (map message_fields ms) [] r (pieces pako cfg who b s kept cs) fine
        tt k (join-pieces pako cfg who b s kept cs ∙ e) in
    let next = run pako cfg who (wire connect_sent ∷ map (λ x. wire (data_ x)) cs) in
    ap (λ z. (z.0, opens_link ∷ z.1))
      (ap (λ z. and_then (performed who true z s) next) (fed-greeted pako cfg c a ne f)
        ∙ ap (λ z. and_then (record { agent = greeted q a; store = z.0 }, z.1) next)
            (perform_all-commands who hops s)
        ∙ ap (λ z. (z.0, (written hops ++ sends (connect_object who s) ∷ []) ++ z.1))
            (finish_connect-reads pako cfg who b s kept cs (map message_fields ms) r refl read
              ∙ ap
                  (λ z.
                    (record { agent = record (enter_running b) { reader = r }; store = z.0 }, z.1))
                  (on_messages-dispatch_all true ms s typed)))
