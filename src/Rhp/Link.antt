-- ===== src/Rhp/Link.antt =====
-- `RhpTcpTransport` and `RhpTcpLink` of src/rhp/client.ts: opening a link over a connection, and the
-- link. The call of `open` that waits for a reply goes on in the step that settles the reply's
-- promise.
pub mod Opening
pub mod Opens
use pdn_whatspac_client.Base.{
  ℕ, Bool, true, false, Option, none, some, List, [], ◌∷◌, ◌++◌, map, Text, Bytes, codes, ◌==◌,
  if◌then◌else◌,
}
use pdn_whatspac_client.Js.Json.{Json, Fields, get}
use pdn_whatspac_client.Rhp.Envelope.{RhpEnvelope}
use pdn_whatspac_client.Rhp.Connection.{
  Connection, fresh, Effect, resolved, rejected, refused, chunk, timeout, transport_end,
  data_listener, close_listener, key_of, request, on_transport_end,
}
use pdn_whatspac_client.Rhp.Connection
use pdn_whatspac_client.Rhp.Requests.{
  OpenOptions, auth_request, open_request, send_request, close_handle, is_failure, Opened,
  handle_is, no_handle, on_open_reply,
}
use pdn_whatspac_client.Rhp.Requests

-- `RhpTcpTransportOptions`, less the address and the times.
pub record Options : Type 0 where
  pub auth : Option (Text × Text)
  pub open_ : OpenOptions

-- Where `open` is: dialling, waiting for the reply to one of its requests, done with a link for a
-- handle, failed for want of a socket, or failed with one.
pub data Phase : Type 0 where
  dialling : Phase
  authenticating opening : ℕ → Phase
  linked : Option ℕ → Phase
  undialled failed : Phase

-- A connection, where its `open` is, and `#localClosed` of the link.
pub record Transport : Type 0 where
  pub connection : Connection
  pub phase : Phase
  pub local_closed : Bool

abbrev pub new : Transport
new = record { connection = fresh; phase = dialling; local_closed = false }

pub data Output : Type 0 where
  does : Effect → Output
  gives_link fails_open destroys ends : Output

-- How the promise of the request `id` was settled, if it was.
pub data Outcome : Type 0 where
  pending : Outcome
  replied : Fields → Outcome
  broken : Outcome

unfoldable pub outcome : ℕ → List Effect → Outcome
outcome id [] = pending
outcome id (resolved k env ∷ es) = let rest = outcome id es in if k == id then replied env else rest
outcome id (rejected k ∷ es) = let rest = outcome id es in if k == id then broken else rest
outcome id (refused ∷ es) = broken
outcome id (e ∷ es) = outcome id es

-- The `catch` of `open`: `destroy()`, and the error is thrown on.
abbrev pub fail : Transport → Transport × List Output
fail t =
    let (c, effects) = on_transport_end t.connection in
    (record t { connection = c; phase = failed }, destroys ∷ (map does effects ++ fails_open ∷ []))

abbrev pub before : List Effect → Transport × List Output → Transport × List Output
before effects (t, outputs) = (t, map does effects ++ outputs)

-- A request of `open` fails at once, or `open` waits for it.
abbrev pub waits : Outcome → Phase → Transport → Transport × List Output
waits broken phase t = fail t
waits _ phase t = (record t { phase = phase }, [])

unfoldable pub ask : (ℕ → Phase) → RhpEnvelope → Transport → Transport × List Output
ask phase e t =
    let id = t.connection.next_id in
    let (c, effects) = request e t.connection in
    before effects (waits (outcome id effects) (phase id) (record t { connection = c }))

-- `open` from the dialled socket on.
abbrev pub begin : Options → Option (Text × Text) → Transport → Transport × List Output
begin o none t = ask opening (open_request o.open_) t
begin o (some (user, pass)) t = ask authenticating (auth_request user pass) t

abbrev pub authenticated : Options → Bool → Transport → Transport × List Output
authenticated o true t = fail t
authenticated o false t = ask opening (open_request o.open_) t

abbrev pub opened : Opened → Transport → Transport × List Output
opened (handle_is h) t = (record t { phase = linked (key_of (some h)) }, gives_link ∷ [])
opened Requests.refused t = fail t
opened no_handle t = fail t

-- What `open` does with the outcome of the request that it waits for.
abbrev pub on_outcome : Options → Phase → Outcome → Transport → Transport × List Output
on_outcome o (authenticating id) (replied env) t =
    authenticated o (is_failure (get (codes "errCode") env)) t
on_outcome o (authenticating id) broken t = fail t
on_outcome o (opening id) (replied env) t = opened (on_open_reply env) t
on_outcome o (opening id) broken t = fail t
on_outcome o _ _ t = (t, [])

abbrev pub awaited : Phase → List Effect → Outcome
awaited (authenticating id) effects = outcome id effects
awaited (opening id) effects = outcome id effects
awaited _ effects = pending

-- Something that happens to the connection, which is there once the socket is.
abbrev pub on_connection :
    Options → Phase → Connection × List Effect → Transport → Transport × List Output
on_connection o dialling r t = (t, [])
on_connection o phase (c, effects) t =
    before effects (on_outcome o phase (awaited phase effects) (record t { connection = c }))

-- `send` and `close` of the link; there is none before `open` has given it.
abbrev pub send_on : Phase → Bytes → Transport → Transport × List Output
send_on (linked (some handle)) bytes t =
    let (c, effects) = request (send_request handle bytes) t.connection in
    (record t { connection = c }, map does effects)
send_on _ bytes t = (t, [])

abbrev pub close_on : Phase → Transport → Transport × List Output
close_on (linked (some handle)) t = if t.local_closed then (t, []) else (
  record t { local_closed = true },
  map does (close_handle handle t.connection) ++ ends ∷ [],
)
close_on _ t = (t, [])

pub data Event : Type 0 where
  dialled dial_failed : Event
  received : Bytes → Event
  timed_out : ℕ → Event
  socket_over : Event
  listens_data listens_close : ℕ → Event
  sends : Bytes → Event
  closes : Event

-- `connectTcp` settles once.
abbrev pub on_dialled : Options → Phase → Transport → Transport × List Output
on_dialled o dialling t = begin o o.auth t
on_dialled o _ t = (t, [])

abbrev pub on_dial_failed : Phase → Transport → Transport × List Output
on_dial_failed dialling t = (record t { phase = undialled }, fails_open ∷ [])
on_dial_failed _ t = (t, [])

unfoldable pub step : Options → Event → Transport → Transport × List Output
step o dialled t = on_dialled o t.phase t
step o dial_failed t = on_dial_failed t.phase t
step o (received bytes) t = on_connection o t.phase (Connection.step (chunk bytes) t.connection) t
step o (timed_out id) t = on_connection o t.phase (Connection.step (timeout id) t.connection) t
step o socket_over t = on_connection o t.phase (Connection.step transport_end t.connection) t
step o (listens_data handle) t =
    on_connection o t.phase (Connection.step (data_listener handle) t.connection) t
step o (listens_close handle) t =
    on_connection o t.phase (Connection.step (close_listener handle) t.connection) t
step o (sends bytes) t = send_on t.phase bytes t
step o closes t = close_on t.phase t

unfoldable pub run : Options → List Event → Transport → Transport × List Output
run o [] t = (t, [])
run o (e ∷ es) t =
    let (u, outputs) = step o e t in let (v, more) = run o es u in (v, outputs ++ more)
