-- ===== src/Store.antt =====
-- src/store/store.ts: the tables as lists of rows in the order of their row ids, and the
-- statements that change them. SQL's NULL is `none`; a column that no statement sets has its
-- default.
pub mod Tables
pub mod Rows
pub mod Conversation
pub mod Operations
pub mod Queries
pub mod Cursors
pub mod Lookups
pub mod Conversations
pub mod Newest
pub mod Replay
pub use pdn_whatspac_client.Store.Tables.{
  ConfigRow, UserRow, HamRow, ChannelRow, MessageRow, PostRow, Store, empty,
}
use pdn_whatspac_client.Base.{
  ℕ, Bool, true, false, not, Option, none, some, List, [], ◌∷◌, ◌++◌, max, Text, codes, text_eq,
  ◌==◌, if◌then◌else◌,
}
use pdn_whatspac_client.Js.Json.Numbers.{write_nat}
use pdn_whatspac_client.Protocol.Messages.{
  Callsign, UserObject, HamName, Avatar, ChannelHeader, DirectMessage, ChannelPost,
}
use pdn_whatspac_client.Store.Rows.{upsert, find}
use pdn_whatspac_client.Store.Conversation.{conversation_id}

-- `coalesce(a, b)`, and `a ?? b` where `b` is a value.
abbrev pub coalesce {ℓ} : {A : Type ℓ} → Option A → Option A → Option A
coalesce none b = b
coalesce (some a) b = some a

infixl 20 ◌or_else◌
abbrev pub ◌or_else◌ {ℓ} : {A : Type ℓ} → Option A → A → A
none or_else b = b
(some a) or_else b = a

-- `setConfig`.
abbrev pub set_config : Text → Text → Store → Store
set_config k v s = record s {
  config = upsert (λ q. q.k) (λ q. record q { v = v }) (record { k = k; v = v }) s.config;
}

-- `getConfig`.
abbrev pub value_of_row : Option ConfigRow → Option Text
value_of_row none = none
value_of_row (some q) = some q.v

abbrev pub get_config : Text → Store → Option Text
get_config k s = value_of_row (find (λ q. q.k) k s.config)

-- `upsertUser`.
abbrev pub user_row : UserObject → UserRow
user_row u = record { tc = u.tc; n = u.n; ls = u.ls; us = u.us }

abbrev pub update_user : UserObject → UserRow → UserRow
update_user u q = record q {
  n = coalesce u.n q.n;
  ls = coalesce u.ls q.ls;
  us = coalesce u.us q.us;
}

abbrev pub upsert_user : UserObject → Store → Store
upsert_user u s = record s { users = upsert (λ q. q.tc) (update_user u) (user_row u) s.users }

-- `INSERT OR IGNORE INTO online`.
unfoldable pub insert_online : List Callsign → Callsign → List Callsign
insert_online [] c = c ∷ []
insert_online (d ∷ ds) c = let rest = insert_online ds c in if text_eq d c then d ∷ ds else d ∷ rest

insert_all : List Callsign → List Callsign → List Callsign
insert_all rows [] = rows
insert_all rows (c ∷ cs) = insert_all (insert_online rows c) cs

-- `setOnline`: the table is emptied first.
unfoldable pub set_online : List Callsign → Store → Store
unfolding insert_all
set_online cs s = record s { online = insert_all [] cs }

abbrev pub add_online : Callsign → Store → Store
add_online c s = record s { online = insert_online s.online c }

unfoldable pub delete_online : Callsign → List Callsign → List Callsign
delete_online c [] = []
delete_online c (d ∷ ds) = let rest = delete_online c ds in if text_eq d c then rest else d ∷ rest

abbrev pub remove_online : Callsign → Store → Store
remove_online c s = record s { online = delete_online c s.online }

-- `upsertHam`.
abbrev pub ham_row : HamName → HamRow
ham_row h = record { c = h.c; n = some h.n; ts = h.ts or_else 0; a = none; ats = 0 }

abbrev pub update_ham : HamName → HamRow → HamRow
update_ham h q = record q { n = some h.n; ts = max q.ts (h.ts or_else 0) }

abbrev pub upsert_ham : HamName → Store → Store
upsert_ham h s = record s { hams = upsert (λ q. q.c) (update_ham h) (ham_row h) s.hams }

-- `upsertAvatar`: nothing without a callsign, or with an empty one.
abbrev pub avatar_row : Callsign → Avatar → HamRow
avatar_row c a = record { c = c; n = none; ts = 0; a = a.a; ats = a.ts or_else 0 }

abbrev pub update_avatar : Avatar → HamRow → HamRow
update_avatar a q = record q { a = a.a; ats = max q.ats (a.ts or_else 0) }

abbrev pub upsert_avatar_of : Option Callsign → Avatar → Store → Store
upsert_avatar_of none a s = s
upsert_avatar_of (some []) a s = s
upsert_avatar_of (some (x ∷ c)) a s = record s {
  hams = upsert (λ q. q.c) (update_avatar a) (avatar_row (x ∷ c) a) s.hams;
}

abbrev pub upsert_avatar : Avatar → Store → Store
upsert_avatar a s = upsert_avatar_of a.c a s

-- `hamUnknown`: no row of the callsign has a name.
abbrev pub is_nameless : HamRow → Bool
is_nameless q = elim q.n [ none ↦ true | some n ↦ false ]

abbrev pub unknown_row : Option HamRow → Bool
unknown_row none = true
unknown_row (some q) = is_nameless q

unfoldable pub ham_unknown : Callsign → Store → Bool
ham_unknown c s = unknown_row (find (λ q. q.c) c s.hams)

-- `upsertChannelHeader`.
abbrev pub update_channel : ChannelHeader → ChannelRow → ChannelRow
update_channel ch q = record q { cn = coalesce ch.cn q.cn }

abbrev pub header_row : ChannelHeader → ChannelRow
header_row ch = record { cid = ch.cid; cn = ch.cn; subscribed = false }

abbrev pub upsert_channel_header : ChannelHeader → Store → Store
upsert_channel_header ch s = record s {
  channels = upsert (λ q. q.cid) (update_channel ch) (header_row ch) s.channels;
}

-- `setChannelSubscribed`.
abbrev pub subscription_row : Text → Bool → ChannelRow
subscription_row cid subscribed = record { cid = cid; cn = none; subscribed = subscribed }

abbrev pub set_subscribed : Bool → ChannelRow → ChannelRow
set_subscribed subscribed q = record q { subscribed = subscribed }

abbrev pub set_channel_subscribed : Text → Bool → Store → Store
set_channel_subscribed cid b s = record s {
  channels = upsert (λ q. q.cid) (set_subscribed b) (subscription_row cid b) s.channels;
}

-- A template `${ts}-${fc}`; a missing `ts` prints as its JavaScript value.
abbrev pub row_id : Option ℕ → Callsign → Text
row_id (some ts) fc = write_nat ts (45 ∷ fc)
row_id none fc = codes "undefined-" ++ fc

-- `putDirectMessage`.
abbrev pub message_row : DirectMessage → MessageRow
message_row d = record {
  id = d.id or_else row_id d.ts d.fc;
  sid = conversation_id d.fc d.tc;
  fc = d.fc;
  tc = d.tc;
  m = d.m;
  ts = d.ts or_else 0;
  ets = 0;
  edts = 0;
  r = d.r;
}

abbrev pub update_message : DirectMessage → MessageRow → MessageRow
update_message d q = record q { m = d.m }

abbrev pub put_direct_message : DirectMessage → Store → Store
put_direct_message d s = record s {
  messages = upsert (λ q. q.id) (update_message d) (message_row d) s.messages;
}

-- `putPost`.
abbrev pub post_row : ChannelPost → PostRow
post_row p = record {
  id = p.id or_else row_id p.ts p.fc;
  cid = p.cid;
  fc = p.fc;
  p = p.p;
  ts = p.ts or_else 0;
  ets = 0;
  edts = 0;
  rts = p.rts;
  rfc = p.rfc;
  at = p.at;
}

abbrev pub update_post : ChannelPost → PostRow → PostRow
update_post p q = record q { p = p.p }

abbrev pub put_post : ChannelPost → Store → Store
put_post p s = record s { posts = upsert (λ q. q.id) (update_post p) (post_row p) s.posts }
