-- ===== src/Examples/Session.antt =====
-- src/heads/rf/session.ts on a short visit.
use pdn_whatspac_client.Base.{none, some, List, [], ◌∷◌}
use pdn_whatspac_client.Protocol.Messages.{ChannelPost}
use pdn_whatspac_client.Store.{empty}
use pdn_whatspac_client.Rf.Session.{fresh, Event, line, posted, gone, talk, menu_, run, step}
use pdn_whatspac_client.Rf.Session.Live.{Forwards, run-Forwards}

abbrev visit : List Event
visit = line empty (talk (66 ∷ [])) ∷ line empty menu_ ∷ gone ∷ []

abbrev news : ChannelPost
news = record {
  cid = 120 ∷ [];
  fc = 66 ∷ [];
  p = 112 ∷ [];
  ts = some 5;
  rts = none;
  rfc = none;
  at = none;
  id = none;
}

run-Forwards_example :
    let s = (run (65 ∷ []) visit fresh).0 in
    Forwards (65 ∷ []) news s.disposed s.view (step (65 ∷ []) (posted news) s).1
run-Forwards_example = run-Forwards (65 ∷ []) visit news
