-- ===== src/Examples/Visit.antt =====
-- src/heads/rf on a short visit, from the socket to the socket.
use pdn_whatspac_client.Base.{
  true, false, ◌≡◌, refl, inl, inr, none, some, List, [], ◌∷◌, ◌++◌, Text, All, codes, arith,
}
use pdn_whatspac_client.Js.Trim.{trim_start, trim_end}
use pdn_whatspac_client.Js.Case.{Unicode, by_points, to_upper_case, to_lower_case}
use pdn_whatspac_client.Store.{Store, PostRow, empty}
use pdn_whatspac_client.Rf.Session.{channel, post, posting, settled, posted}
use pdn_whatspac_client.Rf.Session.Lines.{read_command}
use pdn_whatspac_client.Rf.Session.Lines.Words.{line_of, read_command-line_of}
use pdn_whatspac_client.Rf.Server.Header.{parse_header, header_text, parse_header-header_text}
use pdn_whatspac_client.Rf.Head.{Head, new, torn_down, Event, chunk, agent, socket_over, run}
use pdn_whatspac_client.Rf.Head.OneLine.{IsOneLine, run-AreOneLine}
use pdn_whatspac_client.Rf.Head.Wire.{IsWire, run-AreWire}
use pdn_whatspac_client.Rf.Head.Teardown.{run-over}

-- Tables that leave what is above ASCII as it is.
abbrev plain : Unicode
plain = record { upper = λ c. c ∷ []; lower = λ c. c ∷ [] }

read_command-line_of_example :
    read_command plain ((32 ∷ []) ++ (line_of (codes "post") (32 ∷ []) (codes "hi") ++ 9 ∷ []))
    ≡ some (post (codes "hi"))
unfolding to_upper_case by_points trim_start trim_end
read_command-line_of_example =
    read_command-line_of plain (post (codes "hi")) (32 ∷ []) (codes "post") (32 ∷ []) (codes "hi")
      (9 ∷ []) (refl, tt) (refl, tt) (refl, tt) ((λ e. cc e), (refl, (refl, (refl, (refl, tt)))))
      (refl, refl) (inr (inl refl)) refl

parse_header-header_text_example :
    parse_header plain (header_text (codes "k", codes "v") []) ≡ (codes "k", codes "v") ∷ []
unfolding to_lower_case by_points trim_start trim_end
parse_header-header_text_example =
    parse_header-header_text plain (codes "k", codes "v") []
      (
        (
          (λ e. cc e),
          refl,
          (refl, tt),
          (refl, refl),
          (refl, refl),
          (refl, (refl, (refl, (refl, tt)))),
        ),
        tt,
      )

abbrev header : Text
header = codes "Callsign: G0ABC"

abbrev visit : List Event
visit =
    chunk empty (header ++ 10 ∷ 10 ∷ codes "M\r\n")
    ∷ agent empty (settled posting none)
    ∷ socket_over
    ∷ []

run-AreWire_example : All IsWire (run plain (65 ∷ []) visit new).1
run-AreWire_example = run-AreWire plain (65 ∷ []) visit new

-- A user in a channel, whose post is still on its way, and a post of another in that channel.
abbrev listening : Head
listening = record new {
  session = some (record {
    view = channel (codes "1");
    channel_index = [];
    live = some (channel (codes "1"));
    disposed = false;
  });
}

abbrev too_late : List Event
too_late =
    agent empty (
      posted (record {
        cid = codes "1";
        fc = codes "G0ABC";
        p = codes "hi";
        ts = none;
        rts = none;
        rfc = none;
        at = none;
        id = none;
      }))
    ∷ agent empty (settled posting (some (codes "gone")))
    ∷ socket_over
    ∷ []

run-over_example :
    (run plain (65 ∷ []) (socket_over ∷ too_late) listening).1 ≡ torn_down (listening.session)
run-over_example = run-over plain (65 ∷ []) too_late listening refl (tt, (tt, (tt, tt)))

abbrev body : Text
body = codes "M\r\n"

-- A post of two lines that the store of the time holds in channel `x`.
abbrev two_lines : PostRow
two_lines = record {
  id = 49 ∷ [];
  cid = 120 ∷ [];
  fc = 66 ∷ [];
  p = 104 ∷ 10 ∷ 105 ∷ [];
  ts = 1;
  ets = 0;
  edts = 0;
  rts = none;
  rfc = none;
  at = none;
}

abbrev store : Store
store = record empty {
  channels = record { cid = 120 ∷ []; cn = none; subscribed = true } ∷ [];
  posts = two_lines ∷ [];
}

-- The user opens the channel.
abbrev opening : List Event
opening = chunk store (header ++ 10 ∷ 10 ∷ codes "o 1\n") ∷ socket_over ∷ []

run-AreOneLine_example : All IsOneLine (run plain (65 ∷ []) opening new).1
run-AreOneLine_example =
    run-AreOneLine plain (65 ∷ []) opening (λ c h. (h, tt))
      (((tt, ((omega arith, tt), tt)), tt, (omega arith, tt), tt), (tt, tt))
