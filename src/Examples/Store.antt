-- ===== src/Examples/Store.antt =====
-- src/store/store.ts on a few messages.
use pdn_whatspac_client.Base.{
  ◌≡◌, ◌≤◌, ◌⊎◌, ◌↔◌, refl, true, none, some, List, [], ◌∷◌, Text, All, text_eq,
}
use pdn_whatspac_client.Protocol.Messages.{DirectMessage, ChannelPost, HamName, Avatar}
use pdn_whatspac_client.Store.{Store, empty, message_row, put_direct_message, put_post}
use pdn_whatspac_client.Store.Rows.{find}
use pdn_whatspac_client.Store.Conversation.{conversation_id, conversation_id-pair}
use pdn_whatspac_client.Store.Operations.{
  Operation, message, post, ham, subscription, run, IsWellFormed, run-IsWellFormed,
  empty-IsWellFormed,
}
use pdn_whatspac_client.Store.Queries.Listing.{IsListing, list_posts-IsListing}
use pdn_whatspac_client.Store.Queries.{list_posts, last_avatar_ts}
use pdn_whatspac_client.Store.Cursors.{get_connect_cursors, run-Later, cursors-untouched}
use pdn_whatspac_client.Store.Lookups.{find-put_direct_message}

abbrev call_a : Text
call_a = 65 ∷ []

abbrev call_b : Text
call_b = 66 ∷ []

abbrev hello : DirectMessage
hello = record {
  fc = 65 ∷ [];
  tc = 66 ∷ [];
  m = 104 ∷ 105 ∷ [];
  ts = some 7;
  id = some (49 ∷ []);
  r = none;
}

abbrev hello_again : DirectMessage
hello_again = record hello { m = 104 ∷ 111 ∷ [] }

abbrev notice : ChannelPost
notice = record {
  cid = 120 ∷ [];
  fc = 65 ∷ [];
  p = 112 ∷ [];
  ts = some 5;
  rts = none;
  rfc = none;
  at = none;
  id = some (50 ∷ []);
}

abbrev picture : Avatar
picture = record { c = some (66 ∷ []); a = some (97 ∷ []); ts = some 3; ac = none }

abbrev named : HamName
named = record { c = 66 ∷ []; n = 98 ∷ []; ts = none }

abbrev calls : List Operation
calls = message hello ∷ ham named ∷ subscription (120 ∷ []) true ∷ post notice ∷ []

conversation_id-pair_example :
    (conversation_id call_a call_b ≡ conversation_id call_b call_a)
    ↔ (((call_a ≡ call_b) × (call_b ≡ call_a)) ⊎ ((call_a ≡ call_a) × (call_b ≡ call_b)))
conversation_id-pair_example =
    conversation_id-pair call_a call_b call_b call_a (refl, tt) (refl, tt) (refl, tt) (refl, tt)

run-IsWellFormed_example : IsWellFormed (run calls empty)
run-IsWellFormed_example = run-IsWellFormed calls empty empty-IsWellFormed

cursors-untouched_example :
    let cursors = get_connect_cursors (run calls empty) in
    (cursors.le ≡ 0) × (cursors.led ≡ 0) × All (λ c. (c.le ≡ 0) × (c.led ≡ 0)) cursors.cc
cursors-untouched_example = cursors-untouched calls

run-Later_example :
    ((get_connect_cursors empty).lm ≤ (get_connect_cursors (run calls empty)).lm)
    × ((get_connect_cursors empty).lhts ≤ (get_connect_cursors (run calls empty)).lhts)
    × (last_avatar_ts empty ≤ last_avatar_ts (run calls empty))
run-Later_example = run-Later calls empty

list_posts-IsListing_example :
    IsListing
      (λ q. q.ts)
      (λ q. text_eq q.cid (120 ∷ []))
      10
      (put_post notice empty).posts
      (list_posts (120 ∷ []) 10 (put_post notice empty))
list_posts-IsListing_example = list_posts-IsListing (120 ∷ []) 10 (put_post notice empty)

find-put_direct_message_example :
    find
      (λ q. q.id)
      (message_row hello).id
      (put_direct_message hello_again (put_direct_message hello empty)).messages
    ≡ some (record (message_row hello) { m = 104 ∷ 111 ∷ [] })
find-put_direct_message_example =
    find-put_direct_message hello hello_again empty refl (unfold find in refl)

-- A message to a friend and one from them.
abbrev talk : Store
talk = record empty {
  messages =
      record {
        id = 49 ∷ [];
        sid = 65 ∷ 124 ∷ 66 ∷ [];
        fc = 65 ∷ [];
        tc = 66 ∷ [];
        m = 104 ∷ [];
        ts = 1;
        ets = 0;
        edts = 0;
        r = none;
      }
      ∷ record {
        id = 50 ∷ [];
        sid = 65 ∷ 124 ∷ 66 ∷ [];
        fc = 66 ∷ [];
        tc = 65 ∷ [];
        m = 121 ∷ [];
        ts = 2;
        ets = 0;
        edts = 0;
        r = none;
      }
      ∷ [];
}
