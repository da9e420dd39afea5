-- ===== src/Agent/Client/Mirror.antt =====
-- The stream of the server, as src/agent/agent.ts takes it into the store.
use pdn_whatspac_client.Base.{
  ◌≡◌, refl, sym, ap, ◌∙◌, Bool, List, [], ◌∷◌, ◌++◌, map, append-nil, append_assoc, Bytes, All,
  arith,
}
use pdn_whatspac_client.Base.Chunks.{join}
use pdn_whatspac_client.Base.Splits.{NotIn}
use pdn_whatspac_client.Protocol.Pako.{Pako, IsZlib}
use pdn_whatspac_client.Protocol.Framing.{terminator}
use pdn_whatspac_client.Protocol.Codec.{Result, ok, err, ◌>>=◌, WpsMessage, push}
use pdn_whatspac_client.Protocol.Codec.Scan.{push-split}
use pdn_whatspac_client.Protocol.Codec.RoundTrip.{
  read_all, read_all-join, read_all-stream, IsMessage, stream,
}
use pdn_whatspac_client.Protocol.Messages.{Inbound}
use pdn_whatspac_client.Protocol.Narrowing.Members.{message_fields, IsTyped}
use pdn_whatspac_client.Protocol.Narrowing.RoundTrip.{narrow-message_fields}
use pdn_whatspac_client.Store.{Store}
use pdn_whatspac_client.Agent.Lifecycle.{
  Config, Agent, Phase, connect, wps, Effect, dispatches, data_, ingested, ingest,
}
use pdn_whatspac_client.Agent.Lifecycle
use pdn_whatspac_client.Agent.Dispatch.{dispatch, dispatch_all}
use pdn_whatspac_client.Agent.Dispatch
use pdn_whatspac_client.Agent.Outbound.{Identity}
use pdn_whatspac_client.Agent.Client.{
  Client, Output, heard, heard_all, narrowed, on_message, perform, perform_all, performed, Event,
  wire, step, run,
}

-- From a buffer without a terminator too the reader gives the messages of the stream.
pub read_all-resumes :
    (pako : Pako)
    → IsZlib pako
    → (ms : List WpsMessage) (buffer r : Bytes) (cs : List Bytes) → All IsMessage ms
    → NotIn terminator buffer
    → NotIn terminator r
    → buffer ++ join cs ≡ stream pako ms ++ r
    → read_all pako buffer cs ≡ ok (ms, r)
read_all-resumes pako zlib ms buffer r cs h n k e =
    read_all-join pako cs buffer n
    ∙ push-split pako buffer (join cs)
    ∙ sym (push-split pako [] (buffer ++ join cs))
    ∙ ap (push pako []) (sym (append-nil (buffer ++ join cs)))
    ∙ sym (read_all-join pako ((buffer ++ join cs) ∷ []) [] tt)
    ∙ read_all-stream pako zlib ms r ((buffer ++ join cs) ∷ []) h k
        (append-nil (buffer ++ join cs) ∙ e)

abbrev pub on_messages : Bool → List WpsMessage → Store → Store × List Output
on_messages link [] s = (s, [])
on_messages link (m ∷ ms) s =
    let (t, outputs) = on_message link m s in
    let (u, more) = on_messages link ms t in (u, outputs ++ more)

pub perform_all-dispatches :
    (who : Identity) (link : Bool) (ms : List WpsMessage) (s : Store)
    → perform_all who link (map dispatches ms) s ≡ on_messages link ms s
unfolding perform_all perform
perform_all-dispatches who link [] s = refl
perform_all-dispatches who link (m ∷ ms) s =
    ap (λ q. (q.0, (on_message link m s).1 ++ q.1))
      (perform_all-dispatches who link ms (on_message link m s).0)

pub on_messages-append :
    (link : Bool) (ms ns : List WpsMessage) (s : Store)
    → on_messages link (ms ++ ns) s ≡ (
        let (t, outputs) = on_messages link ms s in
        let (u, more) = on_messages link ns t in (u, outputs ++ more))
on_messages-append link [] ns s = refl
on_messages-append link (m ∷ ms) ns s =
    let (t, outputs) = on_message link m s in
    ap (λ q. (q.0, outputs ++ q.1)) (on_messages-append link ms ns t)
    ∙ ap (λ o. ((on_messages link ns (on_messages link ms t).0).0, o))
        (sym (
          append_assoc outputs (on_messages link ms t).1
            (on_messages link ns (on_messages link ms t).0).1))

-- The agent with these bytes in its reader, after these messages.
abbrev pub mirrored : Client → List WpsMessage → Bytes → Client × List Output
mirrored c ms r =
    let (t, outputs) = on_messages c.agent.link ms c.store in
    (record { agent = record c.agent { reader = r }; store = t }, outputs)

pub ok-injective {ℓ} : {A : Type ℓ} (a b : A) → ok a ≡ ok b → a ≡ b
ok-injective a b e = cc e

-- A chain of two results that ends well went well twice.
pub bind-ok {ℓ} :
    {A B : Type ℓ} (m : Result A) (f : A → Result B) (b : B)
    → (m >>= f) ≡ ok b
    → (a : A) × (m ≡ ok a) × (f a ≡ ok b)
bind-ok (ok a) f b e = (a, refl, e)
bind-ok (err x) f b e = absurd (ground (arith, e))

module _ (pako : Pako) (cfg : Config) (who : Identity) where
  on_data-wps :
      (p : Phase) (chunk : Bytes) (a : Agent)
      → p ≡ wps
      → Lifecycle.on_data pako cfg chunk p a ≡ ingest pako chunk a
  on_data-wps connect chunk a e = absurd (ground (arith, e))
  on_data-wps wps chunk a e = refl

  step-data :
      (chunk : Bytes) (c : Client) (ms : List WpsMessage) (kept : Bytes)
      → c.agent.phase ≡ wps
      → push pako c.agent.reader chunk ≡ ok (ms, kept)
      → step pako cfg who (wire (data_ chunk)) c ≡ mirrored c ms kept
  unfolding step Lifecycle.step ingest
  step-data chunk c ms kept w e =
      ap (λ q. performed who c.agent.link q c.store)
        (on_data-wps c.agent.phase chunk c.agent w ∙ ap (λ q. ingested q c.agent) e)
      ∙ ap (λ q. (record { agent = record c.agent { reader = kept }; store = q.0 }, q.1))
          (perform_all-dispatches who c.agent.link ms c.store)

  abbrev pub chunks : List Bytes → List Event
  chunks cs = map (λ x. wire (data_ x)) cs

  pub run-read_all :
      (cs : List Bytes) (c : Client) (ms : List WpsMessage) (r : Bytes)
      → c.agent.phase ≡ wps
      → read_all pako c.agent.reader cs ≡ ok (ms, r)
      → run pako cfg who (chunks cs) c ≡ mirrored c ms r
  unfolding run read_all
  run-read_all [] c ms r w e =
      ap (λ q. mirrored c q.0 q.1) (ok-injective ([], c.agent.reader) (ms, r) e)
  run-read_all (x ∷ cs) c ms r w e =
      let (p, pushed, more) =
        bind-ok (push pako c.agent.reader x)
          (λ p. read_all pako p.1 cs >>= λ q. ok (p.0 ++ q.0, q.1)) (ms, r) e in
      let (q, others, ends) =
        bind-ok (read_all pako p.1 cs) (λ q. ok (p.0 ++ q.0, q.1)) (ms, r) more in
      let d = mirrored c p.0 p.1 in
      ap (λ z. ((run pako cfg who (chunks cs) z.0).0, z.1 ++ (run pako cfg who (chunks cs) z.0).1))
        (step-data x c p.0 p.1 w pushed)
      ∙ ap (λ z. (z.0, d.1 ++ z.1)) (run-read_all cs d.0 q.0 q.1 w others)
      ∙ ap (λ z. (record { agent = record c.agent { reader = q.1 }; store = z.0 }, z.1))
          (sym (on_messages-append c.agent.link p.0 q.0 c.store))
      ∙ ap (λ z. mirrored c z.0 z.1) (ok-injective (p.0 ++ q.0, q.1) (ms, r) ends)

heard_all-append :
    (link : Bool) (es fs : List Dispatch.Event)
    → heard_all link (es ++ fs) ≡ heard_all link es ++ heard_all link fs
heard_all-append link [] fs = refl
heard_all-append link (e ∷ es) fs =
    ap (λ o. heard link e ++ o) (heard_all-append link es fs)
    ∙ sym (append_assoc (heard link e) (heard_all link es) (heard_all link fs))

pub on_messages-dispatch_all :
    (link : Bool) (ms : List Inbound) (s : Store)
    → All IsTyped ms
    → on_messages link (map message_fields ms) s
      ≡ (let (t, events) = dispatch_all ms s in (t, heard_all link events))
unfolding on_message dispatch_all
on_messages-dispatch_all link [] s h = refl
on_messages-dispatch_all link (m ∷ ms) s h =
    let (t, events) = dispatch m s in
    ap
      (λ o.
        let (v, outputs) = narrowed link o (message_fields m) s in
        let (u, more) = on_messages link (map message_fields ms) v in (u, outputs ++ more))
      (narrow-message_fields m h.0)
    ∙ ap (λ q. (q.0, heard_all link events ++ q.1)) (on_messages-dispatch_all link ms t h.1)
    ∙ ap (λ o. ((dispatch_all ms t).0, o))
        (sym (heard_all-append link events (dispatch_all ms t).1))

-- In the WPS phase, with an unfinished frame in the reader: messages that JSON text can hold were
-- framed, and what comes completes the unfinished frame to the stream of the frames and a part of
-- one more. Then, however the link cuts what comes, the store takes each message once and in order,
-- the heads hear what `dispatch` emits and a name enquiry goes out where there is a link, nothing
-- else is asked for, and the agent is as before with that part in its reader.
pub run-mirrors :
    (pako : Pako) (cfg : Config) (who : Identity) (ms : List Inbound) (r : Bytes) (cs : List Bytes)
    (c : Client)
    → IsZlib pako
    → c.agent.phase ≡ wps
    → All IsTyped ms
    → All IsMessage (map message_fields ms)
    → NotIn terminator c.agent.reader
    → NotIn terminator r
    → c.agent.reader ++ join cs ≡ stream pako (map message_fields ms) ++ r
    → let (t, events) = dispatch_all ms c.store in
      run pako cfg who (map (λ x. wire (data_ x)) cs) c
      ≡ (record { agent = record c.agent { reader = r }; store = t }, heard_all c.agent.link events)
run-mirrors pako cfg who ms r cs c zlib w typed fine n k e =
    run-read_all pako cfg who cs c (map message_fields ms) r w
      (read_all-resumes pako zlib (map message_fields ms) c.agent.reader r cs fine n k e)
    ∙ ap (λ q. (record { agent = record c.agent { reader = r }; store = q.0 }, q.1))
        (on_messages-dispatch_all c.agent.link ms c.store typed)
