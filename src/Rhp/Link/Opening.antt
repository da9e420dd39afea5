-- ===== src/Rhp/Link/Opening.antt =====
-- How `open` of src/rhp/client.ts ends.
use pdn_whatspac_client.Base.{
  ℕ, ◌≡◌, refl, sym, subst, Bool, true, false, none, some, List, [], ◌∷◌, ◌++◌, map, Bytes, codes,
  inr, if◌then◌else◌, arith,
}
use pdn_whatspac_client.Js.Json.{get}
use pdn_whatspac_client.Rhp.Connection.{
  Connection, Effect, chunk, timeout, transport_end, data_listener, close_listener, request,
}
use pdn_whatspac_client.Rhp.Connection
use pdn_whatspac_client.Rhp.Connection.Settling.{step-Balances, request-Balances}
use pdn_whatspac_client.Rhp.Requests.{send_request, close_handle, is_failure, on_open_reply}
use pdn_whatspac_client.Rhp.Link.{
  Options, Phase, dialling, authenticating, opening, linked, undialled, failed, Transport, new,
  does, ends, Outcome, pending, replied, broken, outcome, on_outcome, on_connection, before,
  send_on, close_on, Event, dialled, dial_failed, received, timed_out, socket_over, listens_data,
  listens_close, sends, closes, on_dialled, on_dial_failed, step, run,
}
use pdn_whatspac_client.Rhp.Link.Opens.{
  answers, links, destroyed, is_linked, is_over, is_failed, IsHeld, AreTidy, Fine, Opens,
  answers-append, links-append, destroyed-append, answers-does, links-does, destroyed-does,
  Opens-before, fail-Opens, step-count, begin-Opens, authenticated-Opens, opened-Opens, Waits-at,
  idle-Opens,
}

-- The transport in the phase `p`, with a tidy connection.
abbrev IsAt : Phase → Transport → Type 0
IsAt p t = (t.phase ≡ p) × AreTidy t.connection

rests-Opens : (p : Phase) (t : Transport) → IsAt p t → IsHeld p t.connection → Opens t (t, [])
rests-Opens p t (e, y) held = idle-Opens t (y, subst (λ q. IsHeld q t.connection) (sym e) held)

-- Where `open` is over, what happens to the connection is passed on.
passes-Opens :
    (p : Phase) (r : Connection × List Effect) (t : Transport)
    → IsAt p t
    → AreTidy r.0
    → ((c : Connection) → IsHeld p c)
    → Opens t (before r.1 (record t { connection = r.0 }, []))
passes-Opens p (c, es) t (e, y) z held =
    Opens-before t es (record t { connection = c }, [])
      (rests-Opens p (record t { connection = c }) (e, z) (held c))

on_authenticated-Opens :
    (o : Options) (id : ℕ) (x : Outcome) (t : Transport)
    → IsAt (authenticating id) t
    → (x ≡ pending → IsHeld (authenticating id) t.connection)
    → Opens t (on_outcome o (authenticating id) x t)
on_authenticated-Opens o id (replied env) t (e, y) held =
    authenticated-Opens o (is_failure (get (codes "errCode") env)) t
      (Waits-at t (authenticating id) e refl refl refl y)
on_authenticated-Opens o id broken t (e, y) held =
    fail-Opens t (Waits-at t (authenticating id) e refl refl refl y)
on_authenticated-Opens o id pending t i held = rests-Opens (authenticating id) t i (held refl)

on_opened-Opens :
    (o : Options) (id : ℕ) (x : Outcome) (t : Transport)
    → IsAt (opening id) t
    → (x ≡ pending → IsHeld (opening id) t.connection)
    → Opens t (on_outcome o (opening id) x t)
on_opened-Opens o id (replied env) t (e, y) held =
    opened-Opens (on_open_reply env) t (Waits-at t (opening id) e refl refl refl y)
on_opened-Opens o id broken t (e, y) held =
    fail-Opens t (Waits-at t (opening id) e refl refl refl y)
on_opened-Opens o id pending t i held = rests-Opens (opening id) t i (held refl)

on_connection-Opens :
    (o : Options) (p : Phase) (e : Connection.Event) (t : Transport)
    → IsAt p t
    → IsHeld p t.connection
    → Opens t (on_connection o p (Connection.step e t.connection) t)
on_connection-Opens o dialling e t i held = rests-Opens dialling t i held
on_connection-Opens o (authenticating id) e t (q, y) held =
    let (c, es) = Connection.step e t.connection in
    Opens-before t es
      (on_outcome o (authenticating id) (outcome id es) (record t { connection = c }))
      (on_authenticated-Opens o id (outcome id es) (record t { connection = c })
        (q, (λ k. (step-Balances k e t.connection (y k)).0))
        (λ h. step-count id e t.connection (y id) held h))
on_connection-Opens o (opening id) e t (q, y) held =
    let (c, es) = Connection.step e t.connection in
    Opens-before t es (on_outcome o (opening id) (outcome id es) (record t { connection = c })) (
      on_opened-Opens o id (outcome id es) (record t { connection = c })
        (q, (λ k. (step-Balances k e t.connection (y k)).0))
        (λ h. step-count id e t.connection (y id) held h))
on_connection-Opens o (linked handle) e t i held =
    passes-Opens (linked handle) (Connection.step e t.connection) t i
      (λ k. (step-Balances k e t.connection (i.1 k)).0) (λ c. tt)
on_connection-Opens o undialled e t i held =
    passes-Opens undialled (Connection.step e t.connection) t i
      (λ k. (step-Balances k e t.connection (i.1 k)).0) (λ c. tt)
on_connection-Opens o failed e t i held =
    passes-Opens failed (Connection.step e t.connection) t i
      (λ k. (step-Balances k e t.connection (i.1 k)).0) (λ c. tt)

does-Opens :
    (t : Transport) (c : Connection) (es : List Effect)
    → Fine (record t { connection = c })
    → Opens t (record t { connection = c }, map does es)
does-Opens t c es f = (
  f,
  omega (arith, answers-does es),
  omega (arith, links-does es),
  omega (arith, destroyed-does es),
)

send_on-Opens :
    (p : Phase) (bytes : Bytes) (t : Transport)
    → IsAt p t
    → IsHeld p t.connection
    → Opens t (send_on p bytes t)
send_on-Opens (linked (some handle)) bytes t (q, y) held =
    let (c, es) = request (send_request handle bytes) t.connection in
    does-Opens t c es (
      (λ k. (request-Balances k (send_request handle bytes) t.connection (y k)).0),
      subst (λ r. IsHeld r c) (sym q) tt,
    )
send_on-Opens (linked none) bytes t i held = rests-Opens (linked none) t i held
send_on-Opens dialling bytes t i held = rests-Opens dialling t i held
send_on-Opens (authenticating id) bytes t i held = rests-Opens (authenticating id) t i held
send_on-Opens (opening id) bytes t i held = rests-Opens (opening id) t i held
send_on-Opens undialled bytes t i held = rests-Opens undialled t i held
send_on-Opens failed bytes t i held = rests-Opens failed t i held

close_on-Opens : (p : Phase) (t : Transport) → Fine t → Opens t (close_on p t)
close_on-Opens (linked (some handle)) t f = closing t.local_closed
  where
    es : List Effect
    es = close_handle handle t.connection

    closing :
        (b : Bool)
        → Opens t
            (if b then (t, []) else (record t { local_closed = true }, map does es ++ ends ∷ []))
    closing true = idle-Opens t f
    closing false = (
      f,
      omega (arith, answers-append (map does es) (ends ∷ []), answers-does es),
      omega (arith, links-append (map does es) (ends ∷ []), links-does es),
      omega (arith, destroyed-append (map does es) (ends ∷ []), destroyed-does es),
    )
close_on-Opens (linked none) t f = idle-Opens t f
close_on-Opens dialling t f = idle-Opens t f
close_on-Opens (authenticating id) t f = idle-Opens t f
close_on-Opens (opening id) t f = idle-Opens t f
close_on-Opens undialled t f = idle-Opens t f
close_on-Opens failed t f = idle-Opens t f

on_dialled-Opens :
    (o : Options) (p : Phase) (t : Transport)
    → IsAt p t
    → IsHeld p t.connection
    → Opens t (on_dialled o p t)
on_dialled-Opens o dialling t (e, y) held =
    begin-Opens o o.auth t (Waits-at t dialling e refl refl refl y)
on_dialled-Opens o (authenticating id) t i held = rests-Opens (authenticating id) t i held
on_dialled-Opens o (opening id) t i held = rests-Opens (opening id) t i held
on_dialled-Opens o (linked handle) t i held = rests-Opens (linked handle) t i held
on_dialled-Opens o undialled t i held = rests-Opens undialled t i held
on_dialled-Opens o failed t i held = rests-Opens failed t i held

on_dial_failed-Opens :
    (p : Phase) (t : Transport) → IsAt p t → IsHeld p t.connection → Opens t (on_dial_failed p t)
on_dial_failed-Opens dialling t (e, y) held =
    let w = Waits-at t dialling e refl refl refl y in
    ((y, tt), omega (arith, w.1), omega (arith, w.2), omega (arith, w.3))
on_dial_failed-Opens (authenticating id) t i held = rests-Opens (authenticating id) t i held
on_dial_failed-Opens (opening id) t i held = rests-Opens (opening id) t i held
on_dial_failed-Opens (linked handle) t i held = rests-Opens (linked handle) t i held
on_dial_failed-Opens undialled t i held = rests-Opens undialled t i held
on_dial_failed-Opens failed t i held = rests-Opens failed t i held

step-Opens : (o : Options) (e : Event) (t : Transport) → Fine t → Opens t (step o e t)
unfolding step
step-Opens o dialled t (y, held) = on_dialled-Opens o t.phase t (refl, y) held
step-Opens o dial_failed t (y, held) = on_dial_failed-Opens t.phase t (refl, y) held
step-Opens o (received bytes) t (y, held) =
    on_connection-Opens o t.phase (chunk bytes) t (refl, y) held
step-Opens o (timed_out id) t (y, held) =
    on_connection-Opens o t.phase (timeout id) t (refl, y) held
step-Opens o socket_over t (y, held) = on_connection-Opens o t.phase transport_end t (refl, y) held
step-Opens o (listens_data handle) t (y, held) =
    on_connection-Opens o t.phase (data_listener handle) t (refl, y) held
step-Opens o (listens_close handle) t (y, held) =
    on_connection-Opens o t.phase (close_listener handle) t (refl, y) held
step-Opens o (sends bytes) t (y, held) = send_on-Opens t.phase bytes t (refl, y) held
step-Opens o closes t f = close_on-Opens t.phase t f

run-Opens : (o : Options) (es : List Event) (t : Transport) → Fine t → Opens t (run o es t)
unfolding run
run-Opens o [] t f = idle-Opens t f
run-Opens o (e ∷ es) t f =
    let (u, outputs) = step o e t in
    let one = step-Opens o e t f in
    let all = run-Opens o es u one.0 in
    (
      all.0,
      omega (arith, one.1, all.1, answers-append outputs (run o es u).1),
      omega (arith, one.2, all.2, links-append outputs (run o es u).1),
      omega (arith, one.3, all.3, destroyed-append outputs (run o es u).1),
    )

-- Whatever the socket, the node, the timers and the link's user do: the call of `open` is settled
-- once, when it has come to a link or has failed, and not before; by a link only where it has come to
-- one; the socket is destroyed, once, exactly where the call has failed with one, so that a failed
-- call leaks none and a link's is left alone; and as long as the call waits for a reply, the request
-- for that reply is one that the connection has still to settle, so that no settled request leaves
-- the call hanging.
pub run-opens_once :
    (o : Options) (es : List Event)
    → let (t, outputs) = run o es new in
      (answers outputs ≡ is_over t.phase)
      × (links outputs ≡ is_linked t.phase)
      × (destroyed outputs ≡ is_failed t.phase)
      × IsHeld t.phase t.connection
run-opens_once o es =
    let all = run-Opens o es new ((λ k. (omega arith, inr refl)), tt) in
    (omega (arith, all.1), omega (arith, all.2), omega (arith, all.3), all.0.1)
