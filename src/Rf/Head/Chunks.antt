-- ===== src/Rf/Head/Chunks.antt =====
-- A whole visit in src/heads/rf/server.ts: the header, and the lines that the session is fed.
use pdn_whatspac_client.Base.{true, some, List, ◌∷◌, ◌++◌, map, Text}
use pdn_whatspac_client.Js.Case.{Unicode}
use pdn_whatspac_client.Protocol.Messages.{Callsign}
use pdn_whatspac_client.Store.{Store}
use pdn_whatspac_client.Rf.Session.{Session}
use pdn_whatspac_client.Rf.Server.{
  Connection, Action, start, feed_line, strip_cr, pull_lines, with_header,
}
use pdn_whatspac_client.Rf.Server
use pdn_whatspac_client.Rf.Head.{Head, Effect, Event, chunk}

module _ (u : Unicode) (mine : Callsign) (store : Store) where
  abbrev then_ : Head × List Effect → (Head → Head × List Effect) → Head × List Effect
  then_ (h, effects) f = let (i, more) = f h in (i, effects ++ more)

  -- The actions do not look at the connection.
  abbrev with_connection : Connection → Head × List Effect → Head × List Effect
  with_connection c (h, effects) = (record h { connection = c }, effects)

  abbrev received : List Text → List Event
  received = map (chunk store)

  abbrev fed : List Text → List Action
  fed = map (λ l. feed_line (strip_cr l))

  abbrev with_lines : Text → List Text × Text → Connection × List Action
  with_lines header (lines, rest) =
      (record { buffer = rest; header = some header; session = true }, start header ∷ fed lines)
