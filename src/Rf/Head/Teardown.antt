-- ===== src/Rf/Head/Teardown.antt =====
-- The end of a connection in src/heads/rf/server.ts.
use pdn_whatspac_client.Base.{
  ◌≡◌, refl, sym, ap, ◌∙◌, subst, true, false, Option, none, some, List, [], ◌∷◌, ◌++◌, append-nil,
  All, if◌then◌else◌,
}
use pdn_whatspac_client.Js.Case.{Unicode}
use pdn_whatspac_client.Protocol.Messages.{Callsign}
use pdn_whatspac_client.Store.{Store}
use pdn_whatspac_client.Rf.Session.{
  Session, Output, line, posted, messaged, settled, gone, feed_line, on_command, forward_post,
  forward_message, on_settled,
}
use pdn_whatspac_client.Rf.Session
use pdn_whatspac_client.Rf.Head.{
  Head, Effect, all_effects, in_session, torn_down, disposed, finish, Event, chunk, agent,
  socket_over, step, run,
}

-- No more text comes from the socket.
abbrev pub IsLate : Event → Type 0
IsLate (chunk store text) = ⊥
IsLate (agent store e) = Unit {0}
IsLate socket_over = Unit {0}

-- Disposed of, and with no listener on the agent.
abbrev IsSilent : Option Session → Type 0
IsSilent none = Unit {0}
IsSilent (some s) = (s.disposed ≡ true) × (s.live ≡ none)

-- What `finish` leaves the first time.
abbrev over : Head → Head
over h = record h {
  done = true;
  session = disposed h.session;
  connection = record h.connection { session = false };
}

abbrev IsOver : Head → Type 0
IsOver h = (h.done ≡ true) × IsSilent h.session

disposed-IsSilent : (s : Option Session) → IsSilent (disposed s)
disposed-IsSilent none = tt
disposed-IsSilent (some s) = (refl, refl)

abbrev SaysNothing : Session × List Output → Type 0
SaysNothing (s, outputs) = IsSilent (some s) × (outputs ≡ [])

silent-SaysNothing :
    (mine : Callsign) (e : Session.Event) (s : Session)
    → IsSilent (some s)
    → SaysNothing (Session.step mine e s)
unfolding Session.step feed_line
silent-SaysNothing mine (line store c) s (d, l) =
    subst (λ b. SaysNothing (if b then (s, []) else on_command mine store c s)) (sym d)
      ((d, l), refl)
silent-SaysNothing mine (posted p) s (d, l) = ((d, l), ap (forward_post mine p) l)
silent-SaysNothing mine (messaged m) s (d, l) = ((d, l), ap (forward_message mine m) l)
silent-SaysNothing mine (settled request error) s (d, l) =
    ((d, l), ap (λ b. if b then [] else on_settled request error) d)
silent-SaysNothing mine gone s (d, l) = ((refl, refl), refl)

abbrev IsQuiet : Head × List Effect → Type 0
IsQuiet (h, effects) = IsOver h × (effects ≡ [])

in_session-IsQuiet :
    (mine : Callsign) (store : Store) (e : Session.Event) (s : Option Session) (h : Head)
    → IsSilent s
    → IsOver h
    → IsQuiet (in_session mine store (Session.step mine e) s h)
in_session-IsQuiet mine store e none h q o = (o, refl)
in_session-IsQuiet mine store e (some s) h q o =
    let (silent, said) = silent-SaysNothing mine e s q in
    ((o.0, silent), ap (all_effects mine store h.writable) said)

late-IsQuiet :
    (u : Unicode) (mine : Callsign) (e : Event) (h : Head)
    → IsLate e
    → IsOver h
    → IsQuiet (step u mine e h)
unfolding step finish
late-IsQuiet u mine (chunk store text) h l o = elim l [ ]
late-IsQuiet u mine (agent store e) h l o = in_session-IsQuiet mine store e h.session h o.1 o
late-IsQuiet u mine socket_over h l o =
    subst (λ b. IsQuiet (if b then (h, []) else (over h, torn_down h.session))) (sym (o.0))
      (o, refl)

run-late :
    (u : Unicode) (mine : Callsign) (es : List Event) (h : Head)
    → All IsLate es
    → IsOver h
    → (run u mine es h).1 ≡ []
unfolding run
run-late u mine [] h l o = refl
run-late u mine (e ∷ es) h l o =
    let (next, quiet) = late-IsQuiet u mine e h l.0 o in
    ap (λ effects. effects ++ (run u mine es (step u mine e h).0).1) quiet
    ∙ run-late u mine es (step u mine e h).0 l.1 next

-- When the socket of a connection ends, its session is disposed of, if there is one; and though the
-- session may still be told what the agent emits, whatever that is, whatever of its own it still
-- waits for is settled, and however often the socket reports its end, nothing more is written,
-- asked for or disposed of.
pub run-over :
    (u : Unicode) (mine : Callsign) (es : List Event) (h : Head)
    → h.done ≡ false
    → All IsLate es
    → (run u mine (socket_over ∷ es) h).1 ≡ torn_down h.session
unfolding run step finish
run-over u mine es h d l =
    ap (λ p. p.1 ++ (run u mine es p.0).1) (finished h d)
    ∙ ap (λ effects. torn_down h.session ++ effects)
        (run-late u mine es (over h) l (refl, disposed-IsSilent h.session))
    ∙ append-nil (torn_down h.session)
  where
    finished : (h : Head) → h.done ≡ false → finish h ≡ (over h, torn_down h.session)
    finished h d = ap (λ b. if b then (h, []) else (over h, torn_down h.session)) d
