-- ===== src/Agent/Dispatch/Replay.antt =====
-- What `dispatch` of src/agent/agent.ts makes of a message that the server sends again, as it does
-- after a reconnect.
use pdn_whatspac_client.Base.{
  ◌≡◌, refl, ap, ◌∙◌, ◌==◌, Text, Option, none, some, List, [], ◌∷◌, map, ℕ, sym,
}
use pdn_whatspac_client.Protocol.Messages.{
  Callsign, Avatar, DirectMessage, ChannelPost, Inbound, connect_reply, user_list, online_list,
  user_connected, user_disconnected, ham_enquiry, channel_headers, channel_subscribe,
  direct_message, dm_backfill, channel_post, post_backfill, avatar, other_type,
}
use pdn_whatspac_client.Store.Rows.{IsKeyed, upsert_twice}
use pdn_whatspac_client.Store.Replay.{
  put_all, put_all_twice, insert_online_twice, delete_online_twice,
}
use pdn_whatspac_client.Store.Lookups.{put_direct_message_twice}
use pdn_whatspac_client.Store.{
  Store, ◌or_else◌, upsert_user, set_online, avatar_row, update_avatar, upsert_avatar_of,
  upsert_avatar, upsert_channel_header, subscription_row, set_subscribed, set_channel_subscribed,
  message_row, update_message, post_row, update_post,
}
use pdn_whatspac_client.Agent.Dispatch.{
  Event, message, post, put_each, post_each, each, upsert_named, showing_presence, enquiry,
  dispatch, on_avatar,
}
use pdn_whatspac_client.Agent.Dispatch.Batches.{
  put_users, each-users, users_twice, put_hams, named, each-hams, max_twice, max_same, hams_twice,
  put_channels, each-channels, channels_twice, put_each-eq, post_each-eq,
}

-- No two entries of a batch are for the same row.
abbrev pub AreApart : Inbound → Type 0
AreApart (user_list us) = IsKeyed (λ u. u.tc) us
AreApart (ham_enquiry hs) = IsKeyed (λ h. h.c) (named hs)
AreApart (channel_headers chs) = IsKeyed (λ ch. ch.cid) chs
AreApart (dm_backfill ms) = IsKeyed (λ m. (message_row m).id) ms
AreApart (post_backfill (some ps)) = IsKeyed (λ p. (post_row p).id) ps
AreApart _ = Unit {0}

-- What a message makes of a store, where the events are made of the store behind it; and where that
-- is told another way.
abbrev makes : (Store → Store) → (Store → List Event) → Store → Store × List Event
makes f g s = (f s, g (f s))

again :
    (f : Store → Store) (g : Store → List Event) (s : Store)
    → f (f s) ≡ f s
    → makes f g (f s) ≡ makes f g s
again f g s e = ap (λ t. (t, g t)) e

again_by :
    (d made : Store → Store × List Event) (s : Store)
    → ((t : Store) → d t ≡ made t)
    → made (made s).0 ≡ made s
    → d (d s).0 ≡ d s
again_by d made s e h = ap (λ r. d r.0) (e s) ∙ e (made s).0 ∙ h ∙ sym (e s)

upsert_avatar_twice :
    (c : Option Callsign) (a : Avatar) (s : Store)
    → upsert_avatar_of c a (upsert_avatar_of c a s) ≡ upsert_avatar_of c a s
upsert_avatar_twice none a s = refl
upsert_avatar_twice (some []) a s = refl
upsert_avatar_twice (some (x ∷ c)) a s =
    ap (λ rows. record s { hams = rows })
      (upsert_twice (λ q. q.c) (update_avatar a) (avatar_row (x ∷ c) a) s.hams (λ q. refl)
        (λ q. rw (max_twice q.ats (a.ts or_else 0))) (rw (max_same (a.ts or_else 0))))

on_avatar-again :
    (ac : Option ℕ) (a : Avatar) (s : Store)
    → on_avatar ac a (on_avatar ac a s).0 ≡ on_avatar ac a s
on_avatar-again (some n) a s = refl
on_avatar-again none a s = again (upsert_avatar a) (enquiry a.c) s (upsert_avatar_twice a.c a s)

subscribe-again :
    (n : Option ℕ) (cid : Text) (s : Store)
    → dispatch (channel_subscribe n cid) (dispatch (channel_subscribe n cid) s).0
      ≡ dispatch (channel_subscribe n cid) s
unfolding dispatch
subscribe-again none cid s = refl
subscribe-again (some n) cid s =
    again (set_channel_subscribed cid (n == 1)) (λ t. []) s
      (ap (λ rows. record s { channels = rows })
        (upsert_twice (λ q. q.cid) (set_subscribed (n == 1)) (subscription_row cid (n == 1))
          s.channels (λ q. refl) (λ q. refl) refl))

dm_backfill-again :
    (ms : List DirectMessage) (s : Store)
    → IsKeyed (λ m. (message_row m).id) ms
    → put_each ms (put_each ms s).0 ≡ put_each ms s
dm_backfill-again ms s h =
    again_by (put_each ms)
      (λ t. (
        record t { messages = put_all (λ q. q.id) update_message message_row ms t.messages },
        map message ms,
      ))
      s (put_each-eq ms)
      (ap (λ rows. (record s { messages = rows }, map message ms))
        (put_all_twice (λ q. q.id) update_message message_row (λ m q. refl) (λ m q. refl)
          (λ m. refl) ms s.messages h))

post_backfill-again :
    (ps : List ChannelPost) (s : Store)
    → IsKeyed (λ p. (post_row p).id) ps
    → post_each ps (post_each ps s).0 ≡ post_each ps s
post_backfill-again ps s h =
    again_by (post_each ps)
      (λ t. (record t { posts = put_all (λ q. q.id) update_post post_row ps t.posts }, map post ps))
      s (post_each-eq ps)
      (ap (λ rows. (record s { posts = rows }, map post ps))
        (put_all_twice (λ q. q.id) update_post post_row (λ p q. refl) (λ p q. refl) (λ p. refl) ps
          s.posts h))

-- A message that the server sends a second time, with no two entries of a batch for the same row,
-- leaves the store as the first time left it, and tells the heads and asks the server the same.
pub dispatch-again :
    (m : Inbound) (s : Store) → AreApart m → dispatch m (dispatch m s).0 ≡ dispatch m s
unfolding dispatch set_online
dispatch-again (connect_reply none) s h = refl
dispatch-again (connect_reply (some w)) s h = refl
dispatch-again (user_list us) s h =
    again_by (λ t. (each upsert_user us t, []))
      (λ t. (record t { users = put_users us t.users }, [])) s
      (λ t. ap (λ u. (u, [])) (each-users us t))
      (ap (λ rows. (record s { users = rows }, [])) (users_twice us s.users h))
dispatch-again (online_list cs) s h = refl
dispatch-again (user_connected c) s h =
    ap (λ rows. showing_presence (record s { online = rows })) (insert_online_twice c s.online)
dispatch-again (user_disconnected c) s h =
    ap (λ rows. showing_presence (record s { online = rows })) (delete_online_twice c s.online)
dispatch-again (ham_enquiry hs) s h =
    again_by (λ t. (each upsert_named hs t, []))
      (λ t. (record t { hams = put_hams (named hs) t.hams }, [])) s
      (λ t. ap (λ u. (u, [])) (each-hams hs t))
      (ap (λ rows. (record s { hams = rows }, [])) (hams_twice (named hs) s.hams h))
dispatch-again (channel_headers chs) s h =
    again_by (λ t. (each upsert_channel_header chs t, []))
      (λ t. (record t { channels = put_channels chs t.channels }, [])) s
      (λ t. ap (λ u. (u, [])) (each-channels chs t))
      (ap (λ rows. (record s { channels = rows }, [])) (channels_twice chs s.channels h))
dispatch-again (channel_subscribe n cid) s h = subscribe-again n cid s
dispatch-again (direct_message d) s h = ap (λ t. (t, message d ∷ [])) (put_direct_message_twice d s)
dispatch-again (dm_backfill ms) s h = dm_backfill-again ms s h
dispatch-again (channel_post p) s h =
    ap (λ rows. (record s { posts = rows }, post p ∷ []))
      (upsert_twice (λ q. q.id) (update_post p) (post_row p) s.posts (λ q. refl) (λ q. refl) refl)
dispatch-again (post_backfill none) s h = refl
dispatch-again (post_backfill (some ps)) s h = post_backfill-again ps s h
dispatch-again (avatar a) s h = on_avatar-again a.ac a s
dispatch-again (other_type t) s h = refl
