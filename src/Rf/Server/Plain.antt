-- ===== src/Rf/Server/Plain.antt =====
-- The lines that src/heads/rf/server.ts feeds to a session hold no line feed.
use pdn_whatspac_client.Base.{
  ℕ, if◌then◌else◌, subst, sym, ◌≢◌, Bool, true, false, Option, none, some, List, [], ◌∷◌, ◌++◌,
  map, Text, All, take, drop, length, arith,
}
use pdn_whatspac_client.Base.Splits.{NotIn, pieces-NotIn}
use pdn_whatspac_client.Rf.Session.Lines.Plain.{NotIn-IsLine, strip_cr-All}
use pdn_whatspac_client.Rf.Session.Wording.Plain.{IsLine}
use pdn_whatspac_client.Rf.Server.{
  Connection, Action, feed_line, strip_cr, pull_lines, feed_lines, divided, with_header, on_data,
  find_header_end,
}
use pdn_whatspac_client.Rf.Server.Lines.{pull_lines-split}

abbrev pub IsPlainAction : Action → Type 0
IsPlainAction (feed_line line) = IsLine line
IsPlainAction _ = Unit {0}

lines-ArePlain :
    (lines : List Text)
    → All (NotIn 10) lines
    → All IsPlainAction (map (λ l. feed_line (strip_cr l)) lines)
lines-ArePlain [] h = tt
lines-ArePlain (l ∷ lines) h =
    (strip_cr-All (λ c. c ≢ 10) l (NotIn-IsLine l h.0), lines-ArePlain lines h.1)

if-ArePlain :
    (b : Bool) (c d : Connection) (actions : List Action)
    → All IsPlainAction actions
    → All IsPlainAction (if◌then◌else◌ {A = Connection × List Action} b (c, actions) (d, [])).1
if-ArePlain true c d actions h = h
if-ArePlain false c d actions h = tt

feed_lines-ArePlain : (c : Connection) → All IsPlainAction (feed_lines c).1
feed_lines-ArePlain c =
    let (lines, rest) = pull_lines (length c.buffer) c.buffer in
    if-ArePlain c.session (record c { buffer = rest }) c (map (λ l. feed_line (strip_cr l)) lines)
      (lines-ArePlain lines (
        subst (λ q. All (NotIn 10) q.0)
          (sym (pull_lines-split (length c.buffer) c.buffer (omega arith)))
          (pieces-NotIn 10 c.buffer [] tt)))

-- A chunk, whatever it holds, feeds the session lines without line feeds.
pub on_data-ArePlain :
    (text : Text) (c : Connection) → All IsPlainAction (on_data (λ _. true) text c).1
unfolding on_data
on_data-ArePlain text c = by c.header
  where
    now : Connection
    now = record c { buffer = c.buffer ++ text }

    found : (o : Option (ℕ × ℕ)) → All IsPlainAction (divided (λ _. true) o now).1
    found none = tt
    found (some (header_end, body_start)) = (
      tt,
      feed_lines-ArePlain (record {
        buffer = drop body_start now.buffer;
        header = some (take header_end now.buffer);
        session = true;
      }),
    )

    by : (h : Option Text) → All IsPlainAction (with_header (λ _. true) h now).1
    by (some h) = feed_lines-ArePlain now
    by none = found (find_header_end now.buffer)
