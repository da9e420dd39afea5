-- ===== src/Agent/Dispatch.antt =====
-- `dispatch` of src/agent/agent.ts, and the calls by which the agent sends.
pub mod Effects
pub mod Batches
pub mod Replay
use pdn_whatspac_client.Base.{
  ℕ, ◌+◌, ◌*◌, ◌/◌, ◌≡◌, Bool, true, false, Option, none, some, List, [], ◌∷◌, ◌++◌, Text, Bytes,
  codes, ◌==◌, if◌then◌else◌,
}
use pdn_whatspac_client.Js.Json.{Json}
use pdn_whatspac_client.Js.Json.Numbers.{write_nat}
use pdn_whatspac_client.Protocol.Messages.{
  Callsign, UserObject, HamName, Avatar, ChannelHeader, DirectMessage, ChannelPost, Inbound,
  connect_reply, user_list, online_list, user_connected, user_disconnected, ham_enquiry,
  channel_headers, channel_subscribe, direct_message, dm_backfill, channel_post, post_backfill,
  avatar, other_type,
}
use pdn_whatspac_client.Store.{
  Store, upsert_user, set_online, add_online, remove_online, upsert_ham, upsert_avatar, ham_unknown,
  upsert_channel_header, set_channel_subscribed, put_direct_message, put_post,
}
use pdn_whatspac_client.Store.Queries.{online_callsigns}
use pdn_whatspac_client.Store.Cursors.{ChannelCursor, ConnectCursors}

-- What `dispatch` emits, and the enquiry that it sends.
pub data Event : Type 0 where
  connected : ℕ → Event
  message : DirectMessage → Event
  post : ChannelPost → Event
  presence : List Callsign → Event
  name_enquiry : Callsign → Event

abbrev pub put_each : List DirectMessage → Store → Store × List Event
put_each [] s = (s, [])
put_each (m ∷ ms) s =
    let (t, events) = put_each ms (put_direct_message m s) in (t, message m ∷ events)

abbrev pub post_each : List ChannelPost → Store → Store × List Event
post_each [] s = (s, [])
post_each (p ∷ ps) s = let (t, events) = post_each ps (put_post p s) in (t, post p ∷ events)

abbrev pub each {ℓ} : {A : Type ℓ} → (A → Store → Store) → List A → Store → Store
each f [] s = s
each f (x ∷ xs) s = each f xs (f x s)

-- An entry of `he` that is no object with a callsign is passed over.
abbrev pub upsert_named : Option HamName → Store → Store
upsert_named none s = s
upsert_named (some h) s = upsert_ham h s

abbrev pub showing_presence : Store → Store × List Event
showing_presence s = (s, presence (online_callsigns s) ∷ [])

-- The enquiry for a name, where the avatar's callsign is a text that is not empty.
abbrev pub enquiry : Option Callsign → Store → List Event
enquiry none s = []
enquiry (some []) s = []
enquiry (some (x ∷ c)) s = if ham_unknown (x ∷ c) s then name_enquiry (x ∷ c) ∷ [] else []

abbrev pub on_avatar : Option ℕ → Avatar → Store → Store × List Event
on_avatar (some n) a s = (s, [])
on_avatar none a s = let t = upsert_avatar a s in (t, enquiry a.c t)

unfoldable pub dispatch : Inbound → Store → Store × List Event
dispatch (connect_reply (some w)) s = (s, connected w ∷ [])
dispatch (connect_reply none) s = (s, [])
dispatch (user_list us) s = (each upsert_user us s, [])
dispatch (online_list cs) s = showing_presence (set_online cs s)
dispatch (user_connected c) s = showing_presence (add_online c s)
dispatch (user_disconnected c) s = showing_presence (remove_online c s)
dispatch (ham_enquiry hs) s = (each upsert_named hs s, [])
dispatch (channel_headers chs) s = (each upsert_channel_header chs s, [])
dispatch (channel_subscribe (some n) cid) s = (set_channel_subscribed cid (n == 1) s, [])
dispatch (channel_subscribe none cid) s = (s, [])
dispatch (direct_message d) s = (put_direct_message d s, message d ∷ [])
dispatch (dm_backfill ms) s = put_each ms s
dispatch (channel_post p) s = (put_post p s, post p ∷ [])
dispatch (post_backfill (some ps)) s = post_each ps s
dispatch (post_backfill none) s = (s, [])
dispatch (avatar a) s = on_avatar a.ac a s
dispatch (other_type t) s = (s, [])

-- The messages one after the other.
unfoldable pub dispatch_all : List Inbound → Store → Store × List Event
dispatch_all [] s = (s, [])
dispatch_all (m ∷ ms) s =
    let (t, events) = dispatch m s in let (u, more) = dispatch_all ms t in (u, events ++ more)
