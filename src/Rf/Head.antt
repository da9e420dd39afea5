-- ===== src/Rf/Head.antt =====
-- `handleConnection` of src/heads/rf/server.ts with the session of src/heads/rf/session.ts that it
-- drives: from the text that comes on the socket to the text that goes out. The session's start only
-- writes, and does not throw.
pub mod Effects
pub mod Wire
pub mod Greeting
pub mod OneLine
pub mod Teardown
pub mod Chunks
use pdn_whatspac_client.Base.{
  ℕ, Bool, true, false, Option, none, some, List, [], ◌∷◌, ◌++◌, Text, codes, ◌==◌, if◌then◌else◌,
}
use pdn_whatspac_client.Js.Case.{Unicode}
use pdn_whatspac_client.Protocol.Messages.{Callsign, DirectMessage, ChannelPost}
use pdn_whatspac_client.Store.{Store}
use pdn_whatspac_client.Rf.Session.{
  Session, fresh, Output, says, posts_to, sends_to, subscribes_to, show_menu, Request, dispose,
}
use pdn_whatspac_client.Rf.Session
use pdn_whatspac_client.Rf.Session.Lines.{feed_text}
use pdn_whatspac_client.Rf.Session.Wording.{lines_of}
use pdn_whatspac_client.Rf.Server.{
  Connection, accepted, Action, start, end_socket, feed_line, on_data,
}
use pdn_whatspac_client.Rf.Server.Header.{parse_header, value_of}

-- The connection, its session once there is one, whether the socket still takes output, and
-- `done`.
pub record Head : Type 0 where
  pub connection : Connection
  pub session : Option Session
  pub writable : Bool
  pub done : Bool

abbrev pub new : Head
new = record { connection = accepted; session = none; writable = true; done = false }

-- What goes out on the socket, and what is asked of the agent.
pub data Effect : Type 0 where
  writes : Text → Effect
  ends : Effect
  posts : Text → Text → Effect
  sends : Callsign → Text → Effect
  subscribes : Bool → Text → Effect
  disposes : Effect

-- `replace(/\r/g, "")`.
unfoldable pub without_cr : Text → Text
without_cr [] = []
without_cr (c ∷ s) = let rest = without_cr s in if c == 13 then rest else c ∷ rest

-- `write`.
abbrev pub write : Bool → Text → List Effect
write writable line = if writable then writes (without_cr line ++ 10 ∷ []) ∷ [] else []

abbrev pub write_all : Bool → List Text → List Effect
write_all writable [] = []
write_all writable (line ∷ lines) = write writable line ++ write_all writable lines

abbrev pub effects_of : Callsign → Store → Bool → Output → List Effect
effects_of mine store writable (posts_to cid text) = posts cid text ∷ []
effects_of mine store writable (sends_to peer text) = sends peer text ∷ []
effects_of mine store writable (subscribes_to on cid) = subscribes on cid ∷ []
effects_of mine store writable o = write_all writable (lines_of mine store o)

abbrev pub all_effects : Callsign → Store → Bool → List Output → List Effect
all_effects mine store writable [] = []
all_effects mine store writable (o ∷ os) =
    effects_of mine store writable o ++ all_effects mine store writable os

-- `start` of the session.
abbrev pub who : Option Text → Text
who none = codes "OM"
who (some callsign) = callsign

abbrev pub greeting : Unicode → Text → List Output
greeting u header =
    says (
      codes "WhatsPac terminal — hi "
      ++ (who (value_of (codes "callsign") (parse_header u header)) ++ codes "."))
    ∷ show_menu

-- A change of the session, if there is one, and what it shows.
abbrev pub in_session :
    Callsign
    → Store
    → (Session → Session × List Output)
    → Option Session
    → Head
    → Head × List Effect
in_session mine store f none h = (h, [])
in_session mine store f (some s) h =
    let (t, outputs) = f s in
    (record h { session = some t }, all_effects mine store h.writable outputs)

abbrev pub on_action : Unicode → Callsign → Store → Action → Head → Head × List Effect
on_action u mine store (start header) h =
    (record h { session = some fresh }, all_effects mine store h.writable (greeting u header))
on_action u mine store end_socket h = (record h { writable = false }, ends ∷ [])
on_action u mine store (feed_line line) h =
    in_session mine store (feed_text u mine store line) h.session h

abbrev pub on_actions : Unicode → Callsign → Store → List Action → Head → Head × List Effect
on_actions u mine store [] h = (h, [])
on_actions u mine store (a ∷ actions) h =
    let (i, effects) = on_action u mine store a h in
    let (j, more) = on_actions u mine store actions i in (j, effects ++ more)

-- `finish`, with `teardown`: the first time, the session is disposed of. It is no longer the
-- connection's, but the agent, on which it listens, may still hold it.
abbrev pub torn_down : Option Session → List Effect
torn_down none = []
torn_down (some s) = disposes ∷ []

abbrev pub disposed : Option Session → Option Session
disposed none = none
disposed (some s) = some (dispose s)

unfoldable pub finish : Head → Head × List Effect
finish h = if h.done then (h, []) else (
  record h {
    done = true;
    session = disposed h.session;
    connection = record h.connection { session = false };
  },
  torn_down h.session,
)

-- What happens to a connection, with the store of the time: a chunk from the socket, an event of
-- the agent for its session, and the end, the close or an error of the socket.
pub data Event : Type 0 where
  chunk : Store → Text → Event
  agent : Store → Session.Event → Event
  socket_over : Event

abbrev pub acted : Unicode → Callsign → Store → Connection × List Action → Head → Head × List Effect
acted u mine store (c, actions) h = on_actions u mine store actions (record h { connection = c })

unfoldable pub step : Unicode → Callsign → Event → Head → Head × List Effect
step u mine (chunk store text) h = acted u mine store (on_data (λ _. true) text h.connection) h
step u mine (agent store e) h = in_session mine store (Session.step mine e) h.session h
step u mine socket_over h = finish h

unfoldable pub run : Unicode → Callsign → List Event → Head → Head × List Effect
run u mine [] h = (h, [])
run u mine (e ∷ es) h =
    let (i, effects) = step u mine e h in let (j, more) = run u mine es i in (j, effects ++ more)
