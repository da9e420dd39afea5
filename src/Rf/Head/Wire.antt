-- ===== src/Rf/Head/Wire.antt =====
-- What src/heads/rf/server.ts writes to its socket.
use pdn_whatspac_client.Base.{
  ◌≡◌, refl, inl, inr, Bool-cases, Bool, true, false, Option, none, some, List, [], ◌∷◌, ◌++◌, Text,
  All, All-append, All-of, ◌==◌,
}
use pdn_whatspac_client.Base.Splits.{NotIn}
use pdn_whatspac_client.Js.Case.{Unicode}
use pdn_whatspac_client.Protocol.Messages.{Callsign}
use pdn_whatspac_client.Store.{Store}
use pdn_whatspac_client.Rf.Session.{
  Session, Output, says, shows_help, shows_channels, shows_title, shows_posts, shows_messages,
  shows_online, shows_conversations, live_post, live_message, posts_to, sends_to, subscribes_to,
}
use pdn_whatspac_client.Rf.Session
use pdn_whatspac_client.Rf.Session.Lines.{feed_text}
use pdn_whatspac_client.Rf.Session.Wording.{lines_of}
use pdn_whatspac_client.Rf.Server.{Action, start, end_socket, feed_line, on_data}
use pdn_whatspac_client.Rf.Head.Effects.{write_all-All, all_effects-All}
use pdn_whatspac_client.Rf.Head.{
  Head, Effect, writes, without_cr, write, all_effects, greeting, in_session, on_action, on_actions,
  torn_down, finish, Event, chunk, agent, socket_over, step, run,
}

pub without_cr-NotIn : (s : Text) → NotIn 13 (without_cr s)
unfolding without_cr
without_cr-NotIn [] = tt
without_cr-NotIn (c ∷ s) = elim (Bool-cases (c == 13)) [
  | inl y ↦ rw y (without_cr-NotIn s)
  | inr n ↦ rw n (n, without_cr-NotIn s)
]

-- A text for the socket: a line without a carriage return, and a line feed.
abbrev pub IsWire : Effect → Type 0
IsWire (writes text) = (line : Text) × (text ≡ line ++ 10 ∷ []) × NotIn 13 text
IsWire _ = Unit {0}

write-AreWire : (writable : Bool) (line : Text) → All IsWire (write writable line)
write-AreWire false line = tt
write-AreWire true line = (
  (
    without_cr line,
    refl,
    All-append (λ b. (b == 13) ≡ false) (without_cr line) (10 ∷ []) (without_cr-NotIn line)
        (refl, tt),
  ),
  tt,
)

module _ (mine : Callsign) (store : Store) where
  all_effects-AreWire :
      (writable : Bool) (os : List Output) → All IsWire (all_effects mine store writable os)
  all_effects-AreWire writable os =
      all_effects-All IsWire (λ cid text. tt) (λ peer text. tt) (λ on cid. tt) mine store writable
        (λ o. Unit {0}) os
        (λ o h.
          write_all-All IsWire (λ l. Unit {0}) writable (lines_of mine store o)
            (λ l k. write-AreWire writable l)
            (All-of (λ l. Unit {0}) (lines_of mine store o) (λ l. tt)))
        (All-of (λ o. Unit {0}) os (λ o. tt))

  in_session-AreWire :
      (f : Session → Session × List Output) (s : Option Session) (h : Head)
      → All IsWire (in_session mine store f s h).1
  in_session-AreWire f none h = tt
  in_session-AreWire f (some s) h = all_effects-AreWire h.writable (f s).1

  module _ (u : Unicode) where
    on_action-AreWire : (a : Action) (h : Head) → All IsWire (on_action u mine store a h).1
    on_action-AreWire (start header) h = all_effects-AreWire h.writable (greeting u header)
    on_action-AreWire end_socket h = (tt, tt)
    on_action-AreWire (feed_line line) h =
        in_session-AreWire (feed_text u mine store line) h.session h

    on_actions-AreWire :
        (actions : List Action) (h : Head) → All IsWire (on_actions u mine store actions h).1
    on_actions-AreWire [] h = tt
    on_actions-AreWire (a ∷ actions) h =
        let (i, effects) = on_action u mine store a h in
        All-append IsWire effects (on_actions u mine store actions i).1 (on_action-AreWire a h)
          (on_actions-AreWire actions i)

finish-AreWire : (h : Head) → All IsWire (finish h).1
unfolding finish
finish-AreWire h = elim (Bool-cases h.done) [ inl y ↦ rw y tt | inr n ↦ rw n (torn h.session) ]
  where
    torn : (s : Option Session) → All IsWire (torn_down s)
    torn none = tt
    torn (some s) = (tt, tt)

step-AreWire :
    (u : Unicode) (mine : Callsign) (e : Event) (h : Head) → All IsWire (step u mine e h).1
unfolding step
step-AreWire u mine (chunk store text) h =
    let (c, actions) = on_data (λ _. true) text h.connection in
    on_actions-AreWire mine store u actions (record h { connection = c })
step-AreWire u mine (agent store e) h =
    in_session-AreWire mine store (Session.step mine e) h.session h
step-AreWire u mine socket_over h = finish-AreWire h

-- Whatever comes on the socket and from the agent, and whatever the store holds, all that is
-- written to the socket is lines that end in a line feed, with no carriage return anywhere.
pub run-AreWire :
    (u : Unicode) (mine : Callsign) (es : List Event) (h : Head) → All IsWire (run u mine es h).1
unfolding run
run-AreWire u mine [] h = tt
run-AreWire u mine (e ∷ es) h =
    let (i, effects) = step u mine e h in
    All-append IsWire effects (run u mine es i).1 (step-AreWire u mine e h)
      (run-AreWire u mine es i)
