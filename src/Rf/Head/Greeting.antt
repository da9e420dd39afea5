-- ===== src/Rf/Head/Greeting.antt =====
-- The greeting of src/heads/rf stands on one line, whatever the header holds.
use pdn_whatspac_client.Base.{
  ℕ, if◌then◌else◌, ◌+◌, ◌≢◌, Bool, true, false, Option, none, some, List, [], ◌∷◌, ◌++◌, Text,
  codes, text_eq, All, All-append, All-drop, take, drop, index_of, arith,
}
use pdn_whatspac_client.Base.Splits.{split, NotIn, pieces-NotIn, tail-NotIn}
use pdn_whatspac_client.Js.Trim.{trim}
use pdn_whatspac_client.Js.Case.{Unicode, to_lower_case}
use pdn_whatspac_client.Rf.Session.Lines.Plain.{NotIn-IsLine, trim-All, strip_cr-All}
use pdn_whatspac_client.Rf.Session.Wording.Plain.{IsLine, append-IsLine}
use pdn_whatspac_client.Rf.Session.Wording.Rows.{IsPlain}
use pdn_whatspac_client.Rf.Session.Plain.Steps.{show_menu-ArePlain}
use pdn_whatspac_client.Rf.Server.{strip_cr}
use pdn_whatspac_client.Rf.Server.Header.{
  Entries, all_pieces, entry, at_colon, line_entries, lines_entries, parse_header, value_of,
}
use pdn_whatspac_client.Rf.Head.{who, greeting}

-- The values of a header.
abbrev AreValues : Entries → Type 0
AreValues entries = All (λ e. IsLine e.1) entries

entry-AreValues : (key value : Text) → IsLine value → AreValues (entry key value)
entry-AreValues [] value h = tt
entry-AreValues (c ∷ key) value h = (h, tt)

module _ (u : Unicode) where
  at_colon-AreValues :
      (line : Text) (colon : Option ℕ) → IsLine line → AreValues (at_colon u line colon)
  at_colon-AreValues line none h = tt
  at_colon-AreValues line (some colon) h =
      entry-AreValues (to_lower_case u (trim (take colon line))) (trim (drop (colon + 1) line))
        (trim-All (λ c. c ≢ 10) (drop (colon + 1) line) (All-drop (λ c. c ≢ 10) (colon + 1) line h))

  lines_entries-AreValues :
      (lines : List Text) → All (NotIn 10) lines → AreValues (lines_entries u lines)
  lines_entries-AreValues [] h = tt
  lines_entries-AreValues (raw ∷ lines) h =
      let line = strip_cr raw in
      All-append (λ e. IsLine e.1) (line_entries u line) (lines_entries u lines)
        (at_colon-AreValues line (index_of line (58 ∷ []))
          (strip_cr-All (λ c. c ≢ 10) raw (NotIn-IsLine raw h.0)))
        (lines_entries-AreValues lines h.1)

  parse_header-AreValues : (header : Text) → AreValues (parse_header u header)
  unfolding parse_header
  parse_header-AreValues header =
      let (pieces, last) = split 10 [] header in
      lines_entries-AreValues (all_pieces (split 10 [] header)) (
        All-append (NotIn 10) pieces (last ∷ []) (pieces-NotIn 10 header [] tt)
          (tail-NotIn 10 header [] tt, tt))

abbrev IsPlainValue : Option Text → Type 0
IsPlainValue none = Unit {0}
IsPlainValue (some v) = IsLine v

value_of-IsPlain :
    (key : Text) (entries : Entries) → AreValues entries → IsPlainValue (value_of key entries)
unfolding value_of
value_of-IsPlain key [] h = tt
value_of-IsPlain key ((k, v) ∷ entries) h =
    later (value_of key entries) (text_eq k key) (value_of-IsPlain key entries h.1)
  where
    later :
        (o : Option Text) (b : Bool)
        → IsPlainValue o
        → IsPlainValue (elim o [ some l ↦ some l | none ↦ if b then some v else none ])
    later (some l) b p = p
    later none true p = h.0
    later none false p = tt

who-IsLine : (o : Option Text) → IsPlainValue o → IsLine (who o)
who-IsLine none h = omega arith
who-IsLine (some callsign) h = h

pub greeting-ArePlain : (u : Unicode) (header : Text) → All IsPlain (greeting u header)
greeting-ArePlain u header =
    let name = who (value_of (codes "callsign") (parse_header u header)) in
    (
      append-IsLine (codes "WhatsPac terminal — hi ") (name ++ codes ".") (omega arith) (
          append-IsLine name (codes ".")
            (who-IsLine (value_of (codes "callsign") (parse_header u header)) (
              value_of-IsPlain (codes "callsign") (parse_header u header)
                (parse_header-AreValues u header)))
            (omega arith)),
      show_menu-ArePlain,
    )
