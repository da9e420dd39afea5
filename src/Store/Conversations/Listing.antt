-- ===== src/Store/Conversations/Listing.antt =====
-- What `listConversations` of src/store/store.ts gives.
use mathlib.Core.List.{Mem}
use pdn_whatspac_client.Base.{
  ℕ, ◌≡◌, ◌≤◌, ◌⊎◌, true, false, some, List, Text, All, take, text_eq, if◌then◌else◌,
}
use pdn_whatspac_client.Protocol.Messages.{Callsign}
use pdn_whatspac_client.Store.{Store, MessageRow}
use pdn_whatspac_client.Store.Rows.{greatest}
use pdn_whatspac_client.Store.Queries.Listing.{matching}
use pdn_whatspac_client.Store.Conversations.{ConversationRow, head}

-- How many messages have the key.
abbrev pub under : Text → List MessageRow → ℕ
under sid messages = matching (λ q. text_eq q.sid sid) messages

-- The newest message of a conversation, what it shows, and how many there are.
abbrev pub IsShownBy : Callsign → List MessageRow → ConversationRow → MessageRow → Type 0
IsShownBy mine messages c q =
    Mem q messages
    × (text_eq q.sid c.sid ≡ true)
    × (c.peer ≡ (if text_eq q.fc mine then q.tc else q.fc))
    × (c.last_text ≡ q.m)
    × (c.last_ts ≡ q.ts)

abbrev pub Describes : Callsign → List MessageRow → ConversationRow → Type 0
Describes mine messages c =
    ((q : MessageRow) × IsShownBy mine messages c q)
    × All (λ t. (text_eq t.sid c.sid ≡ false) ⊎ (t.ts ≤ c.last_ts)) messages
    × (c.count ≡ under c.sid messages)

-- The first of rows with the newest first.
abbrev IsNewest : (MessageRow → Type 0) → List MessageRow → Type 0
IsNewest P rows =
    (q : MessageRow) × (head (take 1 rows) ≡ some q) × P q × (greatest (λ t. t.ts) rows ≡ q.ts)
