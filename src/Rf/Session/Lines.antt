-- ===== src/Rf/Session/Lines.antt =====
-- `feedLine` of src/heads/rf/session.ts on the line itself: the command that it reads in it.
pub mod Words
pub mod Plain
use pdn_whatspac_client.Base.{
  ℕ, ◌+◌, Bool, true, false, Option, none, some, List, [], ◌∷◌, ◌++◌, Text, codes, text_eq, take,
  drop, index_of, if◌then◌else◌,
}
use pdn_whatspac_client.Js.Trim.{trim}
use pdn_whatspac_client.Js.Case.{Unicode, to_upper_case}
use pdn_whatspac_client.Protocol.Messages.{Callsign}
use pdn_whatspac_client.Store.{Store}
use pdn_whatspac_client.Rf.Session.{
  Session, Command, help, menu_, channels, who, conversations, quit, open_, post, talk, send,
  subscribe, unknown, Output, feed_line,
}

-- The verb and the rest of a trimmed line, cut at its first space.
abbrev pub cut_at : Option ℕ → Text → Text × Text
cut_at none trimmed = (trimmed, [])
cut_at (some sp) trimmed = (take sp trimmed, trim (drop (sp + 1) trimmed))

abbrev pub words : Text → Text × Text
words trimmed = cut_at (index_of trimmed (32 ∷ [])) trimmed

abbrev pub one_of : Text → Text → Text → Bool
one_of verb a b = if text_eq verb a then true else text_eq verb b

-- The `switch` on the verb.
unfoldable pub command_of : Unicode → Text → Text → Command
command_of u verb rest =
    if one_of verb (codes "H") (codes "?")
    then help
    else if text_eq verb (codes "HELP")
    then help
    else if one_of verb (codes "M") (codes "MENU")
    then menu_
    else if one_of verb (codes "CH") (codes "C")
    then channels
    else if one_of verb (codes "O") (codes "OPEN")
    then open_ rest
    else if one_of verb (codes "P") (codes "POST")
    then post rest
    else if text_eq verb (codes "SUB")
    then subscribe true
    else if text_eq verb (codes "UNSUB")
    then subscribe false
    else if one_of verb (codes "WHO") (codes "W")
    then who
    else if one_of verb (codes "DM") (codes "D")
    then conversations
    else if one_of verb (codes "T") (codes "TALK")
    then talk (to_upper_case u rest)
    else if one_of verb (codes "S") (codes "SEND")
    then send rest
    else if one_of verb (codes "Q") (codes "QUIT")
    then quit
    else if text_eq verb (codes "BYE")
    then quit
    else unknown verb

abbrev pub command_in : Unicode → Text × Text → Command
command_in u (verb, rest) = command_of u (to_upper_case u verb) rest

-- The command of a trimmed line, if it is not empty.
abbrev pub command_on : Unicode → Text → Option Command
command_on u [] = none
command_on u (c ∷ trimmed) = some (command_in u (words (c ∷ trimmed)))

unfoldable pub read_command : Unicode → Text → Option Command
read_command u line = command_on u (trim line)

abbrev pub fed : Callsign → Store → Option Command → Session → Session × List Output
fed mine store none s = (s, [])
fed mine store (some c) s = feed_line mine store c s

-- `feedLine`.
unfoldable pub feed_text : Unicode → Callsign → Store → Text → Session → Session × List Output
feed_text u mine store line s = fed mine store (read_command u line) s
