-- ===== src/Rf/Head/OneLine.antt =====
-- A connection of src/heads/rf writes one line at a time.
use pdn_whatspac_client.Base.{
  if◌then◌else◌, ◌≡◌, refl, inl, inr, Bool-cases, Bool, true, false, Option, none, some, List, [],
  ◌∷◌, ◌++◌, Text, All, All-append, ◌==◌,
}
use pdn_whatspac_client.Base.Splits.{NotIn}
use pdn_whatspac_client.Js.Case.{Unicode}
use pdn_whatspac_client.Protocol.Messages.{Callsign}
use pdn_whatspac_client.Store.{Store}
use pdn_whatspac_client.Rf.Session.{Session, fresh, Command, Output, says, show_menu}
use pdn_whatspac_client.Rf.Session
use pdn_whatspac_client.Rf.Session.Lines.{fed, feed_text, read_command}
use pdn_whatspac_client.Rf.Session.Lines.Plain.{HasPlainUpper, IsPlainRead, read_command-IsPlain}
use pdn_whatspac_client.Rf.Session.Wording.{lines_of}
use pdn_whatspac_client.Rf.Session.Wording.Plain.{IsLine}
use pdn_whatspac_client.Rf.Session.Wording.Rows.{IsPlain}
use pdn_whatspac_client.Rf.Session.Wording.OneLine.{lines_of-AreLines}
use pdn_whatspac_client.Rf.Session.Plain.{IsPlainStore}
use pdn_whatspac_client.Rf.Session.Plain.Steps.{
  IsPlainSession, ArePlain, IsPlainEvent, feed_line-ArePlain, step-ArePlain,
}
use pdn_whatspac_client.Rf.Server.{Action, start, end_socket, feed_line, on_data}
use pdn_whatspac_client.Rf.Server.Plain.{IsPlainAction, on_data-ArePlain}
use pdn_whatspac_client.Rf.Head.{
  new, Head, Effect, writes, without_cr, write, all_effects, greeting, in_session, on_action,
  on_actions, torn_down, disposed, finish, Event, chunk, agent, socket_over, step, run,
}
use pdn_whatspac_client.Rf.Head.Effects.{write_all-All, all_effects-All}
use pdn_whatspac_client.Rf.Head.Greeting.{greeting-ArePlain}
use pdn_whatspac_client.Rf.Head.Wire.{without_cr-NotIn}

-- A text for the socket: one line without a line feed or a carriage return, and a line feed.
abbrev pub IsOneLine : Effect → Type 0
IsOneLine (writes text) = (line : Text) × (text ≡ line ++ 10 ∷ []) × IsLine line × NotIn 13 line
IsOneLine _ = Unit {0}

without_cr-IsLine : (s : Text) → IsLine s → IsLine (without_cr s)
unfolding without_cr
without_cr-IsLine [] h = tt
without_cr-IsLine (c ∷ s) h = elim (Bool-cases (c == 13)) [
  | inl y ↦ rw y (without_cr-IsLine s h.1)
  | inr n ↦ rw n (h.0, without_cr-IsLine s h.1)
]

write-IsOneLine :
    (writable : Bool) (line : Text) → IsLine line → All IsOneLine (write writable line)
write-IsOneLine false line h = tt
write-IsOneLine true line h =
    ((without_cr line, refl, without_cr-IsLine line h, without_cr-NotIn line), tt)

module _ (mine : Callsign) (store : Store) (plain : IsPlainStore store) where
  all_effects-AreOneLine :
      (writable : Bool) (os : List Output)
      → All IsPlain os
      → All IsOneLine (all_effects mine store writable os)
  all_effects-AreOneLine writable os h =
      all_effects-All IsOneLine (λ cid text. tt) (λ peer text. tt) (λ on cid. tt) mine store
        writable IsPlain os
        (λ o p.
          write_all-All IsOneLine IsLine writable (lines_of mine store o) (write-IsOneLine writable)
            (lines_of-AreLines mine store o plain.0 p))
        h

-- The session, where there is one, keeps its channels' keys plain.
abbrev IsPlainIn : Option Session → Type 0
IsPlainIn none = Unit {0}
IsPlainIn (some s) = IsPlainSession s

abbrev pub IsPlainHead : Head → Type 0
IsPlainHead h = IsPlainIn h.session

abbrev KeepsLines : Head × List Effect → Type 0
KeepsLines (h, effects) = IsPlainHead h × All IsOneLine effects

module _ (u : Unicode) (upper : HasPlainUpper u) (mine : Callsign) where
  fed-ArePlain :
      (store : Store) (c : Option Command) (s : Session)
      → IsPlainStore store
      → IsPlainRead c
      → IsPlainSession s
      → ArePlain (fed mine store c s)
  fed-ArePlain store none s p k h = (h, tt)
  fed-ArePlain store (some c) s p k h = feed_line-ArePlain mine store p c s k h

  in_session-KeepsLines :
      (store : Store) (f : Session → Session × List Output) (s : Option Session) (h : Head)
      → IsPlainStore store
      → ((t : Session) → IsPlainSession t → ArePlain (f t))
      → IsPlainIn s
      → IsPlainHead h
      → KeepsLines (in_session mine store f s h)
  in_session-KeepsLines store f none h p k i j = (j, tt)
  in_session-KeepsLines store f (some s) h p k i j =
      let (kept, shown) = k s i in
      (kept, all_effects-AreOneLine mine store p h.writable (f s).1 shown)

  on_action-KeepsLines :
      (store : Store) (a : Action) (h : Head)
      → IsPlainStore store
      → IsPlainAction a
      → IsPlainHead h
      → KeepsLines (on_action u mine store a h)
  unfolding feed_text
  on_action-KeepsLines store (start header) h p k j = (
    tt,
    all_effects-AreOneLine mine store p h.writable (greeting u header) (greeting-ArePlain u header),
  )
  on_action-KeepsLines store end_socket h p k j = (j, (tt, tt))
  on_action-KeepsLines store (feed_line line) h p k j =
      in_session-KeepsLines store (feed_text u mine store line) h.session h p
        (λ t i.
          fed-ArePlain store (read_command u line) t p (read_command-IsPlain u upper line k) i)
        j j

  on_actions-KeepsLines :
      (store : Store) (actions : List Action) (h : Head)
      → IsPlainStore store
      → All IsPlainAction actions
      → IsPlainHead h
      → KeepsLines (on_actions u mine store actions h)
  on_actions-KeepsLines store [] h p k j = (j, tt)
  on_actions-KeepsLines store (a ∷ actions) h p k j =
      let (i, effects) = on_action u mine store a h in
      let one = on_action-KeepsLines store a h p k.0 j in
      let all = on_actions-KeepsLines store actions i p k.1 one.0 in
      (all.0, All-append IsOneLine effects (on_actions u mine store actions i).1 one.1 all.1)

-- What happens to a connection, with a store of the time that is plain; what the user types and
-- the texts of messages and posts are free.
abbrev pub IsPlainFor : Event → Type 0
IsPlainFor (chunk store text) = IsPlainStore store
IsPlainFor (agent store e) = IsPlainStore store × IsPlainEvent e
IsPlainFor socket_over = Unit {0}

torn_down-AreOneLine : (s : Option Session) → All IsOneLine (torn_down s)
torn_down-AreOneLine none = tt
torn_down-AreOneLine (some s) = (tt, tt)

disposed-IsPlain : (s : Option Session) → IsPlainIn s → IsPlainIn (disposed s)
disposed-IsPlain none i = tt
disposed-IsPlain (some s) i = i

finish-KeepsLines : (h : Head) → IsPlainHead h → KeepsLines (finish h)
unfolding finish
finish-KeepsLines h j = by h.done
  where
    by :
        (b : Bool)
        → KeepsLines (
            if b then (h, []) else (
              record h {
                done = true;
                session = disposed h.session;
                connection = record h.connection { session = false };
              },
              torn_down h.session,
            ))
    by true = (j, tt)
    by false = (disposed-IsPlain h.session j, torn_down-AreOneLine h.session)

module _ (u : Unicode) (upper : HasPlainUpper u) (mine : Callsign) where
  step-KeepsLines :
      (e : Event) (h : Head) → IsPlainFor e → IsPlainHead h → KeepsLines (step u mine e h)
  unfolding step
  step-KeepsLines (chunk store text) h p j =
      let (c, actions) = on_data (λ _. true) text h.connection in
      on_actions-KeepsLines u upper mine store actions (record h { connection = c }) p
        (on_data-ArePlain text h.connection) j
  step-KeepsLines (agent store e) h p j =
      in_session-KeepsLines u upper mine store (Session.step mine e) h.session h p.0
        (λ t i. step-ArePlain mine e t p.1 i) j j
  step-KeepsLines socket_over h p j = finish-KeepsLines h j

  run-KeepsLines :
      (es : List Event) (h : Head)
      → All IsPlainFor es
      → IsPlainHead h
      → KeepsLines (run u mine es h)
  unfolding run
  run-KeepsLines [] h p j = (j, tt)
  run-KeepsLines (e ∷ es) h p j =
      let (i, effects) = step u mine e h in
      let one = step-KeepsLines e h p.0 j in
      let all = run-KeepsLines es i p.1 one.0 in
      (all.0, All-append IsOneLine effects (run u mine es i).1 one.1 all.1)

-- Where no callsign, no name and no key in the stores, no callsign of what the agent emits and no
-- error's text holds a line feed, and upper case makes none: whatever the user's side sends, and
-- whatever the texts of messages and posts hold, each write to the socket of a new connection is
-- one line and its line feed, with no other line feed and no carriage return.
pub run-AreOneLine :
    (u : Unicode) (mine : Callsign) (es : List Event)
    → HasPlainUpper u
    → All IsPlainFor es
    → All IsOneLine (run u mine es new).1
run-AreOneLine u mine es upper p = (run-KeepsLines u upper mine es new p tt).1
