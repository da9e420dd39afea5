-- ===== src/Agent/Dispatch/Batches.antt =====
-- The batches that `dispatch` of src/agent/agent.ts takes in, made a second time.
use pdn_whatspac_client.Base.{◌≡◌, refl, ap, Option, none, some, List, [], ◌∷◌, map, max, arith, ℕ}
use pdn_whatspac_client.Protocol.Messages.{
  UserObject, HamName, ChannelHeader, DirectMessage, ChannelPost,
}
use pdn_whatspac_client.Store.Rows.{IsKeyed}
use pdn_whatspac_client.Store.Replay.{put_all, put_all_twice}
use pdn_whatspac_client.Store.{
  Store, UserRow, HamRow, ChannelRow, coalesce, ◌or_else◌, upsert_user, user_row, update_user,
  ham_row, update_ham, upsert_ham, header_row, update_channel, upsert_channel_header, message_row,
  update_message, post_row, update_post, put_direct_message, put_post,
}
use pdn_whatspac_client.Agent.Dispatch.{message, post, put_each, post_each, each, upsert_named}

coalesce_twice : {A : Type 0} → (a b : Option A) → coalesce a (coalesce a b) ≡ coalesce a b
coalesce_twice none b = refl
coalesce_twice (some a) b = refl

coalesce_same : {A : Type 0} → (a : Option A) → coalesce a a ≡ a
coalesce_same none = refl
coalesce_same (some a) = refl

-- The entries of `he` that are objects.
abbrev pub named : List (Option HamName) → List HamName
named [] = []
named (none ∷ hs) = named hs
named (some h ∷ hs) = h ∷ named hs

-- Each batch is the statement of its table, for one entry behind the other.
abbrev pub put_users : List UserObject → List UserRow → List UserRow
put_users us rows = put_all (λ q. q.tc) update_user user_row us rows

pub each-users :
    (us : List UserObject) (s : Store)
    → each upsert_user us s ≡ record s { users = put_users us s.users }
each-users [] s = refl
each-users (u ∷ us) s = each-users us (upsert_user u s)

pub users_twice :
    (us : List UserObject) (rows : List UserRow)
    → IsKeyed (λ u. u.tc) us
    → put_users us (put_users us rows) ≡ put_users us rows
users_twice us rows h =
    put_all_twice (λ q. q.tc) update_user user_row (λ u q. refl)
      (λ u q. rw (coalesce_twice u.n q.n, coalesce_twice u.ls q.ls, coalesce_twice u.us q.us))
      (λ u. rw (coalesce_same u.n, coalesce_same u.ls, coalesce_same u.us)) us rows h

abbrev pub put_hams : List HamName → List HamRow → List HamRow
put_hams hs rows = put_all (λ q. q.c) update_ham ham_row hs rows

pub each-hams :
    (hs : List (Option HamName)) (s : Store)
    → each upsert_named hs s ≡ record s { hams = put_hams (named hs) s.hams }
each-hams [] s = refl
each-hams (none ∷ hs) s = each-hams hs s
each-hams (some h ∷ hs) s = each-hams hs (upsert_ham h s)

pub max_twice : (a b : ℕ) → max (max a b) b ≡ max a b
max_twice a b = omega arith

pub max_same : (a : ℕ) → max a a ≡ a
max_same a = omega arith

pub hams_twice :
    (hs : List HamName) (rows : List HamRow)
    → IsKeyed (λ h. h.c) hs
    → put_hams hs (put_hams hs rows) ≡ put_hams hs rows
hams_twice hs rows h =
    put_all_twice (λ q. q.c) update_ham ham_row (λ u q. refl)
      (λ u q. rw (max_twice q.ts (u.ts or_else 0))) (λ u. rw (max_same (u.ts or_else 0))) hs rows h

abbrev pub put_channels : List ChannelHeader → List ChannelRow → List ChannelRow
put_channels chs rows = put_all (λ q. q.cid) update_channel header_row chs rows

pub each-channels :
    (chs : List ChannelHeader) (s : Store)
    → each upsert_channel_header chs s ≡ record s { channels = put_channels chs s.channels }
each-channels [] s = refl
each-channels (ch ∷ chs) s = each-channels chs (upsert_channel_header ch s)

pub channels_twice :
    (chs : List ChannelHeader) (rows : List ChannelRow)
    → IsKeyed (λ ch. ch.cid) chs
    → put_channels chs (put_channels chs rows) ≡ put_channels chs rows
channels_twice chs rows h =
    put_all_twice (λ q. q.cid) update_channel header_row (λ u q. refl)
      (λ u q. rw (coalesce_twice u.cn q.cn)) (λ u. rw (coalesce_same u.cn)) chs rows h

pub put_each-eq :
    (ms : List DirectMessage) (s : Store)
    → put_each ms s ≡ (
      record s { messages = put_all (λ q. q.id) update_message message_row ms s.messages },
      map message ms,
    )
put_each-eq [] s = refl
put_each-eq (m ∷ ms) s = ap (λ r. (r.0, message m ∷ r.1)) (put_each-eq ms (put_direct_message m s))

pub post_each-eq :
    (ps : List ChannelPost) (s : Store)
    → post_each ps s
      ≡ (record s { posts = put_all (λ q. q.id) update_post post_row ps s.posts }, map post ps)
post_each-eq [] s = refl
post_each-eq (p ∷ ps) s = ap (λ r. (r.0, post p ∷ r.1)) (post_each-eq ps (put_post p s))
