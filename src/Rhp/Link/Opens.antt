-- ===== src/Rhp/Link/Opens.antt =====
-- What the parts of `open` of src/rhp/client.ts do to the promise of the call and to the socket.
use pdn_whatspac_client.Base.{
  ℕ, ◌+◌, ◌≡◌, ◌≢◌, ◌⊎◌, inl, inr, refl, sym, ap, ◌∙◌, Bool, true, false, Bool-cases, Bytes, Option,
  none, some, List, [], ◌∷◌, ◌++◌, map, Text, ◌==◌, if◌then◌else◌, arith,
}
use pdn_whatspac_client.Rhp.Envelope.{RhpEnvelope, encode_frame}
use pdn_whatspac_client.Rhp.Connection.{
  Connection, Effect, issued, resolved, rejected, refused, wrote, delivered, link_closed, request,
  written, with_id, on_transport_end,
}
use pdn_whatspac_client.Rhp.Connection
use pdn_whatspac_client.Rhp.Connection.Counting.{count, count-append, settles, IsTidy}
use pdn_whatspac_client.Rhp.Connection.Settling.{
  step-Balances, request-Balances, on_transport_end-Balances,
}
use pdn_whatspac_client.Rhp.Requests.{auth_request, open_request, Opened, handle_is, no_handle}
use pdn_whatspac_client.Rhp.Requests
use pdn_whatspac_client.Rhp.Link.{
  Options, Phase, authenticating, opening, linked, undialled, failed, Transport, Output, does,
  gives_link, fails_open, destroys, ends, Outcome, pending, replied, broken, outcome, fail, before,
  waits, ask, begin, authenticated, opened,
}

-- How often the promise of `open` was settled, and how often with a link; and how often the
-- socket was destroyed.
abbrev pub answers : List Output → ℕ
answers [] = 0
answers (gives_link ∷ os) = 1 + answers os
answers (fails_open ∷ os) = 1 + answers os
answers (o ∷ os) = answers os

abbrev pub links : List Output → ℕ
links [] = 0
links (gives_link ∷ os) = 1 + links os
links (o ∷ os) = links os

abbrev pub destroyed : List Output → ℕ
destroyed [] = 0
destroyed (destroys ∷ os) = 1 + destroyed os
destroyed (o ∷ os) = destroyed os

abbrev pub is_linked : Phase → ℕ
is_linked (linked handle) = 1
is_linked _ = 0

abbrev pub is_over : Phase → ℕ
is_over (linked handle) = 1
is_over undialled = 1
is_over failed = 1
is_over _ = 0

abbrev pub is_failed : Phase → ℕ
is_failed failed = 1
is_failed _ = 0

-- The request whose reply `open` waits for is one that the connection still has to settle.
abbrev pub IsHeld : Phase → Connection → Type 0
IsHeld (authenticating id) c = count id c.pending ≡ 1
IsHeld (opening id) c = count id c.pending ≡ 1
IsHeld _ c = Unit {0}

pub answers-append : (os ps : List Output) → answers (os ++ ps) ≡ answers os + answers ps
answers-append [] ps = omega arith
answers-append (gives_link ∷ os) ps = omega (arith, answers-append os ps)
answers-append (fails_open ∷ os) ps = omega (arith, answers-append os ps)
answers-append (does e ∷ os) ps = answers-append os ps
answers-append (destroys ∷ os) ps = answers-append os ps
answers-append (ends ∷ os) ps = answers-append os ps

pub links-append : (os ps : List Output) → links (os ++ ps) ≡ links os + links ps
links-append [] ps = omega arith
links-append (gives_link ∷ os) ps = omega (arith, links-append os ps)
links-append (fails_open ∷ os) ps = links-append os ps
links-append (does e ∷ os) ps = links-append os ps
links-append (destroys ∷ os) ps = links-append os ps
links-append (ends ∷ os) ps = links-append os ps

pub answers-does : (es : List Effect) → answers (map does es) ≡ 0
answers-does [] = refl
answers-does (e ∷ es) = answers-does es

pub links-does : (es : List Effect) → links (map does es) ≡ 0
links-does [] = refl
links-does (e ∷ es) = links-does es

pub destroyed-append : (os ps : List Output) → destroyed (os ++ ps) ≡ destroyed os + destroyed ps
destroyed-append [] ps = omega arith
destroyed-append (destroys ∷ os) ps = omega (arith, destroyed-append os ps)
destroyed-append (gives_link ∷ os) ps = destroyed-append os ps
destroyed-append (fails_open ∷ os) ps = destroyed-append os ps
destroyed-append (does e ∷ os) ps = destroyed-append os ps
destroyed-append (ends ∷ os) ps = destroyed-append os ps

pub destroyed-does : (es : List Effect) → destroyed (map does es) ≡ 0
destroyed-does [] = refl
destroyed-does (e ∷ es) = destroyed-does es

abbrev pub AreTidy : Connection → Type 0
AreTidy c = (k : ℕ) → IsTidy k c

abbrev pub Fine : Transport → Type 0
Fine t = AreTidy t.connection × IsHeld t.phase t.connection

-- A step settles the promise of `open` exactly where it makes an end of it, and destroys the socket
-- exactly where that end is a failure with a socket.
abbrev pub Opens : Transport → Transport × List Output → Type 0
Opens t (u, outputs) =
    Fine u
    × (answers outputs + is_over t.phase ≡ is_over u.phase)
    × (links outputs + is_linked t.phase ≡ is_linked u.phase)
    × (destroyed outputs + is_failed t.phase ≡ is_failed u.phase)

-- It does so from a phase where `open` still waits.
abbrev pub Waits : Transport → Type 0
Waits t =
    AreTidy t.connection × (is_over t.phase ≡ 0) × (is_linked t.phase ≡ 0) × (is_failed t.phase ≡ 0)

pub Opens-before :
    (t : Transport) (es : List Effect) (r : Transport × List Output)
    → Opens t r
    → Opens t (before es r)
Opens-before t es r o = (
  o.0,
  omega (arith, o.1, answers-append (map does es) r.1, answers-does es),
  omega (arith, o.2, links-append (map does es) r.1, links-does es),
  omega (arith, o.3, destroyed-append (map does es) r.1, destroyed-does es),
)

pub fail-Opens : (t : Transport) → Waits t → Opens t (fail t)
fail-Opens t w =
    let es = (on_transport_end t.connection).1 in
    (
      ((λ k. (on_transport_end-Balances k t.connection (w.0 k)).0), tt),
      omega (arith, w.1, answers-append (map does es) (fails_open ∷ []), answers-does es),
      omega (arith, w.2, links-append (map does es) (fails_open ∷ []), links-does es),
      omega (arith, w.3, destroyed-append (map does es) (fails_open ∷ []), destroyed-does es),
    )

broken-ne-pending : broken ≢ pending
broken-ne-pending e = cc e

-- A promise that is not settled yet.
pub pending-settles : (id : ℕ) (es : List Effect) → outcome id es ≡ pending → settles id es ≡ 0
unfolding outcome
pending-settles id [] h = refl
pending-settles id (resolved k env ∷ es) h = elim (Bool-cases (k == id)) [
  | inl y ↦
      absurd (replied-ne-pending (sym (ap (λ b. if b then replied env else outcome id es) y) ∙ h))
  | inr n ↦ rw n (
      omega (
        arith,
        pending-settles id es (sym (ap (λ b. if b then replied env else outcome id es) n) ∙ h),
      ))
]
  where
    replied-ne-pending : replied env ≢ pending
    replied-ne-pending e = cc e
pending-settles id (rejected k ∷ es) h = elim (Bool-cases (k == id)) [
  | inl y ↦ absurd (broken-ne-pending (sym (ap (λ b. if b then broken else outcome id es) y) ∙ h))
  | inr n ↦ rw n (
      omega
        (arith, pending-settles id es (sym (ap (λ b. if b then broken else outcome id es) n) ∙ h)))
]
pending-settles id (refused ∷ es) h = absurd (broken-ne-pending h)
pending-settles id (issued k ∷ es) h = pending-settles id es h
pending-settles id (wrote b ∷ es) h = pending-settles id es h
pending-settles id (delivered k b ∷ es) h = pending-settles id es h
pending-settles id (link_closed k ∷ es) h = pending-settles id es h

-- What waits for a reply and does not get it goes on waiting.
pub step-count :
    (id : ℕ) (e : Connection.Event) (c : Connection)
    → IsTidy id c
    → count id c.pending ≡ 1
    → outcome id (Connection.step e c).1 ≡ pending
    → count id (Connection.step e c).0.pending ≡ 1
step-count id e c t one h =
    let b = step-Balances id e c t in
    let s = pending-settles id (Connection.step e c).1 h in omega (arith, t.1, b.1, b.4, s, one)

-- A request that is taken has its id among those that wait; the others fail at once.
abbrev IsTaken : ℕ → Connection × List Effect → Type 0
IsTaken id (c, es) = (outcome id es ≡ broken) ⊎ (count id c.pending ≡ 1)

written-IsTaken :
    (id : ℕ) (o : Option Bytes) (c : Connection)
    → count id c.pending ≡ 1
    → IsTaken id (written id o c)
unfolding outcome
written-IsTaken id none c one = inl (ap (λ b. if b then broken else pending) (same id))
  where
    same : (n : ℕ) → (n == n) ≡ true
    same n = ground arith
written-IsTaken id (some frame) c one = inr one

request-IsTaken : (e : RhpEnvelope) (c : Connection) → AreTidy c → IsTaken c.next_id (request e c)
unfolding request outcome
request-IsTaken e c t = by c.closed
  where
    alone :
        count c.next_id (c.pending ++ c.next_id ∷ [])
          ≡ count c.next_id c.pending + count c.next_id (c.next_id ∷ [])
        → IsTidy c.next_id c
        → count c.next_id (c.pending ++ c.next_id ∷ []) ≡ 1
    alone a (b, z) = ground (arith, a, z)

    taken : Connection
    taken = record c { next_id = c.next_id + 1; pending = c.pending ++ c.next_id ∷ [] }

    by :
        (b : Bool)
        → IsTaken c.next_id (
            if b
            then (c, refused ∷ [])
            else written c.next_id (encode_frame (with_id c.next_id e)) taken)
    by true = inl refl
    by false =
        written-IsTaken c.next_id (encode_frame (with_id c.next_id e)) taken
          (alone (count-append c.next_id c.pending (c.next_id ∷ [])) (t c.next_id))

ask-Opens :
    (phase : ℕ → Phase) (e : RhpEnvelope) (t : Transport)
    → ((id : ℕ) → is_over (phase id) ≡ 0)
    → ((id : ℕ) → is_linked (phase id) ≡ 0)
    → ((id : ℕ) → is_failed (phase id) ≡ 0)
    → ((id : ℕ) (c : Connection) → count id c.pending ≡ 1 → IsHeld (phase id) c)
    → Waits t
    → Opens t (ask phase e t)
unfolding ask
ask-Opens phase e t over link fails held w =
    let id = t.connection.next_id in
    let (c, effects) = request e t.connection in
    Opens-before t effects (waits (outcome id effects) (phase id) (record t { connection = c })) (
      waiting (outcome id effects) id c (λ k. (request-Balances k e t.connection (w.0 k)).0)
        (request-IsTaken e t.connection w.0))
  where
    waiting :
        (x : Outcome) (id : ℕ) (c : Connection)
        → AreTidy c
        → (x ≡ broken) ⊎ (count id c.pending ≡ 1)
        → Opens t (waits x (phase id) (record t { connection = c }))
    waiting broken id c y h = fail-Opens (record t { connection = c }) (y, w.1, w.2, w.3)
    waiting pending id c y (inl b) = absurd (broken-ne-pending (sym b))
    waiting (replied env) id c y (inl b) = absurd (replied-ne-broken b)
      where
        replied-ne-broken : replied env ≢ broken
        replied-ne-broken e = cc e
    waiting pending id c y (inr one) = (
      (y, held id c one),
      omega (arith, w.1, over id),
      omega (arith, w.2, link id),
      omega (arith, w.3, fails id),
    )
    waiting (replied env) id c y (inr one) = (
      (y, held id c one),
      omega (arith, w.1, over id),
      omega (arith, w.2, link id),
      omega (arith, w.3, fails id),
    )

pub ask_open-Opens :
    (o : Options) (t : Transport) → Waits t → Opens t (ask opening (open_request o.open_) t)
ask_open-Opens o t w =
    ask-Opens opening (open_request o.open_) t (λ id. refl) (λ id. refl) (λ id. refl)
      (λ id c one. one) w

pub begin-Opens :
    (o : Options) (auth : Option (Text × Text)) (t : Transport) → Waits t → Opens t (begin o auth t)
begin-Opens o none t w = ask_open-Opens o t w
begin-Opens o (some (user, pass)) t w =
    ask-Opens authenticating (auth_request user pass) t (λ id. refl) (λ id. refl) (λ id. refl)
      (λ id c one. one) w

pub authenticated-Opens :
    (o : Options) (b : Bool) (t : Transport) → Waits t → Opens t (authenticated o b t)
authenticated-Opens o true t w = fail-Opens t w
authenticated-Opens o false t w = ask_open-Opens o t w

pub opened-Opens : (x : Opened) (t : Transport) → Waits t → Opens t (opened x t)
opened-Opens (handle_is h) t w =
    ((w.0, tt), omega (arith, w.1), omega (arith, w.2), omega (arith, w.3))
opened-Opens Requests.refused t w = fail-Opens t w
opened-Opens no_handle t w = fail-Opens t w

pub Waits-at :
    (t : Transport) (p : Phase)
    → t.phase ≡ p
    → is_over p ≡ 0
    → is_linked p ≡ 0
    → is_failed p ≡ 0
    → AreTidy t.connection
    → Waits t
Waits-at t p e over link fails y =
    (y, ap is_over e ∙ over, ap is_linked e ∙ link, ap is_failed e ∙ fails)

pub idle-Opens : (t : Transport) → Fine t → Opens t (t, [])
idle-Opens t f = (f, omega arith, omega arith, omega arith)
