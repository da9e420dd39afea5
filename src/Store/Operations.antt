-- ===== src/Store/Operations.antt =====
-- The calls of src/store/store.ts that change the database, and what they keep.
use pdn_whatspac_client.Base.{
  ◌≡◌, refl, inl, inr, Bool, Option, none, some, List, [], ◌∷◌, Text, All, text_eq, Bool-cases,
}
use pdn_whatspac_client.Protocol.Messages.{
  Callsign, UserObject, HamName, Avatar, ChannelHeader, DirectMessage, ChannelPost,
}
use pdn_whatspac_client.Store.Rows.{upsert, Absent, IsKeyed, upsert-IsKeyed, upsert-All}
use pdn_whatspac_client.Store.{
  Store, empty, set_config, update_user, user_row, upsert_user, insert_online, insert_all,
  set_online, add_online, delete_online, remove_online, update_ham, ham_row, upsert_ham, avatar_row,
  update_avatar, upsert_avatar_of, upsert_avatar, update_channel, upsert_channel_header,
  set_channel_subscribed, message_row, header_row, set_subscribed, subscription_row, update_message,
  update_post, put_direct_message, post_row, put_post,
}

pub data Operation : Type 0 where
  config : Text → Text → Operation
  user : UserObject → Operation
  online_are : List Callsign → Operation
  online_is : Callsign → Operation
  offline_is : Callsign → Operation
  ham : HamName → Operation
  avatar : Avatar → Operation
  header : ChannelHeader → Operation
  subscription : Text → Bool → Operation
  message : DirectMessage → Operation
  post : ChannelPost → Operation

unfoldable pub apply : Operation → Store → Store
apply (config k v) s = set_config k v s
apply (user u) s = upsert_user u s
apply (online_are cs) s = set_online cs s
apply (online_is c) s = add_online c s
apply (offline_is c) s = remove_online c s
apply (ham h) s = upsert_ham h s
apply (avatar a) s = upsert_avatar a s
apply (header ch) s = upsert_channel_header ch s
apply (subscription cid b) s = set_channel_subscribed cid b s
apply (message m) s = put_direct_message m s
apply (post p) s = put_post p s

-- The operations one after the other.
unfoldable pub run : List Operation → Store → Store
run [] s = s
run (op ∷ ops) s = run ops (apply op s)

-- Every table has each key once; no edit or reaction time has been set.
abbrev pub IsUntouched : Store → Type 0
IsUntouched s =
    All (λ q. (q.ets ≡ 0) × (q.edts ≡ 0)) s.messages × All (λ q. (q.ets ≡ 0) × (q.edts ≡ 0)) s.posts

abbrev pub HasKeys : Store → Type 0
HasKeys s =
    IsKeyed (λ q. q.k) s.config
    × IsKeyed (λ q. q.tc) s.users
    × IsKeyed (λ c. c) s.online
    × IsKeyed (λ q. q.c) s.hams
    × IsKeyed (λ q. q.cid) s.channels
    × IsKeyed (λ q. q.id) s.messages
    × IsKeyed (λ q. q.id) s.posts

abbrev pub IsWellFormed : Store → Type 0
IsWellFormed s = HasKeys s × IsUntouched s

insert_online-upsert :
    (rows : List Callsign) (c : Callsign) → insert_online rows c ≡ upsert (λ x. x) (λ x. x) c rows
unfolding insert_online upsert
insert_online-upsert [] c = refl
insert_online-upsert (d ∷ ds) c = elim (Bool-cases (text_eq d c)) [
  | inl y ↦ rw y
  | inr n ↦ rw (n, insert_online-upsert ds c)
]

insert_online-IsKeyed :
    (rows : List Callsign) (c : Callsign)
    → IsKeyed (λ x. x) rows
    → IsKeyed (λ x. x) (insert_online rows c)
insert_online-IsKeyed rows c h =
    rw (insert_online-upsert rows c) (upsert-IsKeyed (λ x. x) (λ x. x) c rows (λ x. refl) h)

insert_all-IsKeyed :
    (rows cs : List Callsign) → IsKeyed (λ x. x) rows → IsKeyed (λ x. x) (insert_all rows cs)
unfolding insert_all
insert_all-IsKeyed rows [] h = h
insert_all-IsKeyed rows (c ∷ cs) h =
    insert_all-IsKeyed (insert_online rows c) cs (insert_online-IsKeyed rows c h)

delete_online-Absent :
    (c k : Callsign) (rows : List Callsign)
    → Absent (λ x. x) k rows
    → Absent (λ x. x) k (delete_online c rows)
unfolding delete_online
delete_online-Absent c k [] h = tt
delete_online-Absent c k (d ∷ ds) h = elim (Bool-cases (text_eq d c)) [
  | inl y ↦ rw y (delete_online-Absent c k ds h.1)
  | inr n ↦ rw n (h.0, delete_online-Absent c k ds h.1)
]

delete_online-IsKeyed :
    (c : Callsign) (rows : List Callsign)
    → IsKeyed (λ x. x) rows
    → IsKeyed (λ x. x) (delete_online c rows)
unfolding delete_online
delete_online-IsKeyed c [] h = tt
delete_online-IsKeyed c (d ∷ ds) h = elim (Bool-cases (text_eq d c)) [
  | inl y ↦ rw y (delete_online-IsKeyed c ds h.1)
  | inr n ↦ rw n (delete_online-Absent c d ds h.0, delete_online-IsKeyed c ds h.1)
]

avatar-HasKeys :
    (o : Option Callsign) (a : Avatar) (s : Store) → HasKeys s → HasKeys (upsert_avatar_of o a s)
avatar-HasKeys none a s h = h
avatar-HasKeys (some []) a s h = h
avatar-HasKeys (some (x ∷ c)) a s (k, u, o, t, ch, m, p) = (
  k,
  u,
  o,
  upsert-IsKeyed (λ q. q.c) (update_avatar a) (avatar_row (x ∷ c) a) s.hams (λ q. refl) t,
  ch,
  m,
  p,
)

apply-HasKeys : (op : Operation) (s : Store) → HasKeys s → HasKeys (apply op s)
unfolding apply set_online
apply-HasKeys (config key v) s (k, u, o, t, ch, m, p) = (
  upsert-IsKeyed (λ q. q.k) (λ q. record q { v = v }) (record { k = key; v = v }) s.config
      (λ q. refl) k,
  u,
  o,
  t,
  ch,
  m,
  p,
)
apply-HasKeys (user x) s (k, u, o, t, ch, m, p) = (
  k,
  upsert-IsKeyed (λ q. q.tc) (update_user x) (user_row x) s.users (λ q. refl) u,
  o,
  t,
  ch,
  m,
  p,
)
apply-HasKeys (online_are cs) s (k, u, o, t, ch, m, p) =
    (k, u, insert_all-IsKeyed [] cs tt, t, ch, m, p)
apply-HasKeys (online_is c) s (k, u, o, t, ch, m, p) =
    (k, u, insert_online-IsKeyed s.online c o, t, ch, m, p)
apply-HasKeys (offline_is c) s (k, u, o, t, ch, m, p) =
    (k, u, delete_online-IsKeyed c s.online o, t, ch, m, p)
apply-HasKeys (ham x) s (k, u, o, t, ch, m, p) =
    (k, u, o, upsert-IsKeyed (λ q. q.c) (update_ham x) (ham_row x) s.hams (λ q. refl) t, ch, m, p)
apply-HasKeys (avatar a) s h = avatar-HasKeys a.c a s h
apply-HasKeys (header x) s (k, u, o, t, ch, m, p) = (
  k,
  u,
  o,
  t,
  upsert-IsKeyed (λ q. q.cid) (update_channel x) (header_row x) s.channels (λ q. refl) ch,
  m,
  p,
)
apply-HasKeys (subscription cid b) s (k, u, o, t, ch, m, p) = (
  k,
  u,
  o,
  t,
  upsert-IsKeyed (λ q. q.cid) (set_subscribed b) (subscription_row cid b) s.channels (λ q. refl) ch,
  m,
  p,
)
apply-HasKeys (message d) s (k, u, o, t, ch, m, p) = (
  k,
  u,
  o,
  t,
  ch,
  upsert-IsKeyed (λ q. q.id) (update_message d) (message_row d) s.messages (λ q. refl) m,
  p,
)
apply-HasKeys (post d) s (k, u, o, t, ch, m, p) = (
  k,
  u,
  o,
  t,
  ch,
  m,
  upsert-IsKeyed (λ q. q.id) (update_post d) (post_row d) s.posts (λ q. refl) p,
)

avatar-IsUntouched :
    (o : Option Callsign) (a : Avatar) (s : Store)
    → IsUntouched s
    → IsUntouched (upsert_avatar_of o a s)
avatar-IsUntouched none a s h = h
avatar-IsUntouched (some []) a s h = h
avatar-IsUntouched (some (x ∷ c)) a s h = h

apply-IsUntouched : (op : Operation) (s : Store) → IsUntouched s → IsUntouched (apply op s)
unfolding apply set_online
apply-IsUntouched (config key v) s h = h
apply-IsUntouched (user x) s h = h
apply-IsUntouched (online_are cs) s h = h
apply-IsUntouched (online_is c) s h = h
apply-IsUntouched (offline_is c) s h = h
apply-IsUntouched (ham x) s h = h
apply-IsUntouched (avatar a) s h = avatar-IsUntouched a.c a s h
apply-IsUntouched (header x) s h = h
apply-IsUntouched (subscription cid b) s h = h
apply-IsUntouched (message d) s (m, p) = (
  upsert-All (λ q. q.id) (λ q. (q.ets ≡ 0) × (q.edts ≡ 0)) (update_message d) (message_row d)
      s.messages (λ q e. e) (refl, refl) m,
  p,
)
apply-IsUntouched (post d) s (m, p) = (
  m,
  upsert-All (λ q. q.id) (λ q. (q.ets ≡ 0) × (q.edts ≡ 0)) (update_post d) (post_row d) s.posts
      (λ q e. e) (refl, refl) p,
)

-- Whatever calls are made of a well-formed database, it stays well formed: each table has each
-- key once, and no message or post has an edit or a reaction time.
pub run-IsWellFormed :
    (ops : List Operation) (s : Store) → IsWellFormed s → IsWellFormed (run ops s)
unfolding run
run-IsWellFormed [] s h = h
run-IsWellFormed (op ∷ ops) s h =
    run-IsWellFormed ops (apply op s) (apply-HasKeys op s h.0, apply-IsUntouched op s h.1)

pub empty-IsWellFormed : IsWellFormed empty
empty-IsWellFormed = ((tt, tt, tt, tt, tt, tt, tt), (tt, tt))
