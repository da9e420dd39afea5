-- ===== src/Rf/Server.antt =====
-- The connection handler of src/heads/rf/server.ts: the connect header, and then lines. Whether
-- the session starts is an argument: it is not so where `RfSession` or its `start` throws.
pub mod Lines
pub mod Stream
pub mod Plain
pub mod Header
use pdn_whatspac_client.Base.{
  ℕ, zero, suc, ◌+◌, Bool, true, false, Option, none, some, List, [], ◌∷◌, ◌++◌, map, Text, length,
  take, drop, index_of, ◌==◌, if◌then◌else◌,
}

-- `replace(/\r$/, "")`.
abbrev pub strip_cr : Text → Text
strip_cr [] = []
strip_cr (x ∷ []) = if x == 13 then [] else x ∷ []
strip_cr (x ∷ y ∷ s) = x ∷ strip_cr (y ∷ s)

-- The `while` loop: the text before each line feed, and what is left. Each round takes a
-- character at least, so the length of the buffer is enough fuel.
unfoldable pub pull_lines : ℕ → Text → List Text × Text
pull_lines zero buffer = ([], buffer)
pull_lines (suc fuel) buffer = elim (index_of buffer (10 ∷ [])) [
  | none ↦ ([], buffer)
  | some nl ↦
      let (lines, rest) = pull_lines fuel (drop (nl + 1) buffer) in (take nl buffer ∷ lines, rest)
]

-- `findHeaderEnd`: where the header's text ends, and where the body starts.
abbrev pub ends_at : Option ℕ → Option (ℕ × ℕ)
ends_at none = none
ends_at (some idx) = some (idx, idx + 2)

abbrev pub find_header_end : Text → Option (ℕ × ℕ)
find_header_end buffer = ends_at (index_of buffer (10 ∷ 10 ∷ []))

-- A connection: the buffer, the header once it is here, and whether a session is on.
pub record Connection : Type 0 where
  pub buffer : Text
  pub header : Option Text
  pub session : Bool

abbrev pub accepted : Connection
accepted = record { buffer = []; header = none; session = false }

pub data Action : Type 0 where
  start : Text → Action
  end_socket : Action
  feed_line : Text → Action

-- The second phase.
abbrev pub feed_lines : Connection → Connection × List Action
feed_lines c =
    if c.session
    then (let (lines, rest) = pull_lines (length c.buffer) c.buffer in
        (record c { buffer = rest }, map (λ l. feed_line (strip_cr l)) lines))
    else (c, [])

-- A start that throws leaves the session in its variable, with the text behind the header unread.
abbrev pub begin : (Text → Bool) → Text → Text → Connection × List Action
begin starts header body =
    if starts header
    then (let (c, actions) =
          feed_lines (record { buffer = body; header = some header; session = true }) in
        (c, start header ∷ actions))
    else (
      record { buffer = body; header = some header; session = true },
      start header ∷ end_socket ∷ [],
    )

abbrev pub divided : (Text → Bool) → Option (ℕ × ℕ) → Connection → Connection × List Action
divided starts none c = (c, [])
divided starts (some (header_end, body_start)) c =
    begin starts (take header_end c.buffer) (drop body_start c.buffer)

abbrev pub with_header : (Text → Bool) → Option Text → Connection → Connection × List Action
with_header starts (some h) c = feed_lines c
with_header starts none c = divided starts (find_header_end c.buffer) c

-- The `data` handler.
unfoldable pub on_data : (Text → Bool) → Text → Connection → Connection × List Action
on_data starts chunk c = with_header starts c.header (record c { buffer = c.buffer ++ chunk })

unfoldable pub run : (Text → Bool) → List Text → Connection → Connection × List Action
run starts [] c = (c, [])
run starts (chunk ∷ chunks) c =
    let (d, actions) = on_data starts chunk c in
    let (e, more) = run starts chunks d in (e, actions ++ more)
