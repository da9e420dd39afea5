-- ===== src/Rf/Session/Plain.antt =====
-- What a session of src/heads/rf/session.ts shows, where nothing that comes to it holds a line feed
-- but the texts of messages and posts.
pub mod Steps
use pdn_whatspac_client.Base.{
  ℕ, zero, suc, ◌≡◌, ◌≢◌, inl, inr, Bool-cases, Bool, true, false, not, ◌&&◌, Option, none, some,
  List, [], ◌∷◌, ◌++◌, map, Text, codes, text_eq, All, All-append, All-take, All-map, take, length,
  get_or, ltb, if◌then◌else◌, arith,
}
use pdn_whatspac_client.Protocol.Messages.{Callsign, DirectMessage, ChannelPost}
use pdn_whatspac_client.Store.{Store, MessageRow, post_row, message_row}
use pdn_whatspac_client.Store.Conversations.{
  ConversationRow, last_of, peer_of, conversation, add_key, conversation_keys, later_conversation,
  list_conversations, of_key, head,
}
use pdn_whatspac_client.Store.Queries.{
  sql_leb, where_, order_by, order_by-All, newer_post, newer_message, list_channels, list_posts,
  list_direct_messages, online_callsigns,
}
use pdn_whatspac_client.Rf.Session.{
  View, menu, channel, dm, Session, Command, help, menu_, channels, who, conversations, quit, open_,
  post, talk, send, subscribe, unknown, Output, says, shows_help, shows_channels, shows_title,
  shows_posts, shows_messages, shows_online, shows_conversations, live_post, live_message, posts_to,
  sends_to, subscribes_to, index_of_channels, at_index, parse_int, opened, cmd_open_channel,
  cmd_open_dm, cmd_post, cmd_subscribe, cmd_send_dm, on_command, feed_line, forward_post,
  forward_message, Request, posting, sending, subscribing, on_settled, emit, Event, settled, line,
  posted, messaged, gone, step, set_view, history_limit,
}
use pdn_whatspac_client.Rf.Session.Lines.Plain.{shown_of}
use pdn_whatspac_client.Rf.Session.Wording.Plain.{IsLine, append-IsLine}
use pdn_whatspac_client.Rf.Session.Wording.Rows.{HasPlainNames, IsPlain}

-- A store whose names, callsigns and keys hold no line feed.
abbrev pub IsPlainStore : Store → Type 0
IsPlainStore s =
    HasPlainNames s
    × All (λ m. IsLine m.fc × IsLine m.tc × IsLine m.sid) s.messages
    × All (λ p. IsLine p.fc) s.posts
    × All IsLine s.online

module _ {A : Type 0} where
  where_-keeps {κ} :
      (P : A → Type κ) (test : A → Bool) (rows : List A) → All P rows → All P (where_ test rows)
  unfolding where_
  where_-keeps P test [] h = tt
  where_-keeps P test (r ∷ rows) h = elim (Bool-cases (test r)) [
    | inl y ↦ rw y (h.0, where_-keeps P test rows h.1)
    | inr n ↦ rw n (where_-keeps P test rows h.1)
  ]

  map-All_of {κ ρ σ} :
      {B : Type κ} (P : A → Type ρ) (Q : B → Type σ) (f : A → B) (xs : List A)
      → ((a : A) → P a → Q (f a))
      → All P xs
      → All Q (map f xs)
  map-All_of P Q f [] k h = tt
  map-All_of P Q f (x ∷ xs) k h = (k x h.0, map-All_of P Q f xs k h.1)

module _ (store : Store) (plain : IsPlainStore store) where
  pub list_channels-IsPlain : IsPlain (shows_channels (list_channels store))
  list_channels-IsPlain = order_by-All _ (λ a b. sql_leb a.cid b.cid) store.channels plain.0.1

  pub list_posts-IsPlain : (cid : Text) → IsPlain (shows_posts (list_posts cid history_limit store))
  unfolding list_posts
  list_posts-IsPlain cid =
      let rows = where_ (λ q. text_eq q.cid cid) store.posts in
      All-take (λ p. IsLine p.fc) history_limit (order_by newer_post rows)
        (order_by-All (λ p. IsLine p.fc) newer_post rows
          (where_-keeps (λ p. IsLine p.fc) (λ q. text_eq q.cid cid) store.posts plain.2))

  pub list_direct_messages-IsPlain :
      (sid : Text) → IsPlain (shows_messages (list_direct_messages sid history_limit store))
  unfolding list_direct_messages
  list_direct_messages-IsPlain sid =
      let rows = where_ (λ q. text_eq q.sid sid) store.messages in
      All-take (λ m. IsLine m.fc) history_limit (order_by newer_message rows)
        (order_by-All (λ m. IsLine m.fc) newer_message rows
          (where_-keeps (λ m. IsLine m.fc) (λ q. text_eq q.sid sid) store.messages
            (All-map _ (λ m. IsLine m.fc) store.messages (λ m h. h.0) plain.1)))

  pub online_callsigns-IsPlain : IsPlain (shows_online (online_callsigns store))
  online_callsigns-IsPlain = order_by-All IsLine sql_leb store.online plain.3

abbrev IsPlainMessage : MessageRow → Type 0
IsPlainMessage m = IsLine m.fc × IsLine m.tc × IsLine m.sid

abbrev IsPlainFirst : Option MessageRow → Type 0
IsPlainFirst none = Unit {0}
IsPlainFirst (some m) = IsPlainMessage m

head-IsPlain : (ms : List MessageRow) → All IsPlainMessage ms → IsPlainFirst (head ms)
head-IsPlain [] h = tt
head-IsPlain (m ∷ ms) h = h.0

last_of-IsPlain :
    (sid : Text) (ms : List MessageRow) → All IsPlainMessage ms → IsPlainFirst (last_of sid ms)
last_of-IsPlain sid ms h =
    let rows = of_key sid ms in
    head-IsPlain (take 1 (order_by newer_message rows)) (
      All-take IsPlainMessage 1 (order_by newer_message rows) (
        order_by-All IsPlainMessage newer_message rows
          (where_-keeps IsPlainMessage (λ q. text_eq q.sid sid) ms h)))

peer_of-IsLine :
    (mine : Callsign) (sid : Text) (m : Option MessageRow)
    → IsLine sid
    → IsPlainFirst m
    → IsLine (peer_of mine sid m)
peer_of-IsLine mine sid none k h = k
peer_of-IsLine mine sid (some m) k h = elim (Bool-cases (text_eq m.fc mine)) [
  | inl y ↦ rw y (h.1)
  | inr n ↦ rw n (h.0)
]

add_key-AreLines :
    (k : Text) (ks : List Text) → IsLine k → All IsLine ks → All IsLine (add_key k ks)
unfolding add_key
add_key-AreLines k [] p h = (p, tt)
add_key-AreLines k (x ∷ xs) p h = elim (Bool-cases (text_eq x k)) [
  | inl y ↦ rw y h
  | inr n ↦ rw n (h.0, add_key-AreLines k xs p h.1)
]

conversation_keys-AreLines :
    (ms : List MessageRow) → All IsPlainMessage ms → All IsLine (conversation_keys ms)
unfolding conversation_keys
conversation_keys-AreLines [] h = tt
conversation_keys-AreLines (m ∷ ms) h =
    add_key-AreLines m.sid (conversation_keys ms) h.0.2 (conversation_keys-AreLines ms h.1)

pub list_conversations-IsPlain :
    (mine : Callsign) (store : Store)
    → IsPlainStore store
    → IsPlain (shows_conversations (list_conversations mine store))
unfolding list_conversations
list_conversations-IsPlain mine store plain =
    let ms = store.messages in
    order_by-All (λ c. IsLine c.peer) later_conversation
      (map (conversation mine ms) (conversation_keys ms))
      (map-All_of IsLine (λ c. IsLine c.peer) (conversation mine ms) (conversation_keys ms)
        (λ sid k. peer_of-IsLine mine sid (last_of sid ms) k (last_of-IsPlain sid ms plain.1))
        (conversation_keys-AreLines ms plain.1))
