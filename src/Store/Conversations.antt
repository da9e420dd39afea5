-- ===== src/Store/Conversations.antt =====
-- `listConversations` of src/store/store.ts.
pub mod Listing
use pdn_whatspac_client.Base.{
  ℕ, Bool, Option, none, some, List, [], ◌∷◌, map, Text, text_eq, length, take, leb, if◌then◌else◌,
  arith,
}
use pdn_whatspac_client.Protocol.Messages.{Callsign}
use pdn_whatspac_client.Store.Rows.{greatest}
use pdn_whatspac_client.Store.{Store, MessageRow}
use pdn_whatspac_client.Store.Queries.{
  where_, order_by, order_by-IsOrdered, newer_message, IsOrdered,
}

pub record ConversationRow : Type 0 where
  pub sid : Text
  pub peer : Callsign
  pub last_text : Text
  pub last_ts : ℕ
  pub count : ℕ

-- `GROUP BY sid`: the keys, each once.
unfoldable pub add_key : Text → List Text → List Text
add_key k [] = k ∷ []
add_key k (x ∷ xs) = let rest = add_key k xs in if text_eq x k then x ∷ xs else x ∷ rest

unfoldable pub conversation_keys : List MessageRow → List Text
conversation_keys [] = []
conversation_keys (m ∷ ms) = add_key m.sid (conversation_keys ms)

abbrev pub head : List MessageRow → Option MessageRow
head [] = none
head (m ∷ ms) = some m

abbrev pub of_key : Text → List MessageRow → List MessageRow
of_key sid = where_ (λ q. text_eq q.sid sid)

-- The `SELECT … ORDER BY ts DESC LIMIT 1` of a conversation.
abbrev pub last_of : Text → List MessageRow → Option MessageRow
last_of sid messages = head (take 1 (order_by newer_message (of_key sid messages)))

abbrev pub peer_of : Callsign → Text → Option MessageRow → Callsign
peer_of mine sid none = sid
peer_of mine sid (some m) = if text_eq m.fc mine then m.tc else m.fc

abbrev pub text_or_empty : Option MessageRow → Text
text_or_empty none = []
text_or_empty (some m) = m.m

abbrev pub conversation : Callsign → List MessageRow → Text → ConversationRow
conversation mine messages sid = record {
  sid = sid;
  peer = peer_of mine sid (last_of sid messages);
  last_text = text_or_empty (last_of sid messages);
  last_ts = greatest (λ q. q.ts) (of_key sid messages);
  count = length (of_key sid messages);
}

abbrev pub later_conversation : ConversationRow → ConversationRow → Bool
later_conversation a b = leb b.last_ts a.last_ts

unfoldable pub list_conversations : Callsign → Store → List ConversationRow
list_conversations mine s =
    order_by later_conversation (map (conversation mine s.messages) (conversation_keys s.messages))

-- The conversation of the newest message comes first.
pub list_conversations-IsOrdered :
    (mine : Callsign) (s : Store) → IsOrdered later_conversation (list_conversations mine s)
unfolding list_conversations
list_conversations-IsOrdered mine s =
    order_by-IsOrdered later_conversation (λ r q n. ground arith) (λ r q t x y. ground arith)
      (map (conversation mine s.messages) (conversation_keys s.messages))
