-- ===== src/Web/Reads.antt =====
-- The reading routes of src/heads/web/app.ts: the JSON that each answers with, from the store. An
-- object with a key that looks like an array index keeps it in its place here.
use pdn_whatspac_client.Base.{
  ℕ, ◌≡◌, ◌<◌, ap, Bool, true, false, Option, none, some, List, [], ◌∷◌, Text, All, codes, text_eq,
}
use pdn_whatspac_client.Js.Trim.{is_blank}
use pdn_whatspac_client.Js.Json.{
  Json, null, bool, str, num, arr, obj, Items, nil, cons, Fields, end, field, get,
}
use pdn_whatspac_client.Protocol.Messages.{Callsign}
use pdn_whatspac_client.Store.{Store, HamRow, ChannelRow, MessageRow, PostRow, put_post}
use pdn_whatspac_client.Js.Json.Numbers.{write_nat}
use pdn_whatspac_client.Store.Rows.{Absent}
use pdn_whatspac_client.Store.Conversation.{conversation_id}
use pdn_whatspac_client.Store.Conversations.{ConversationRow, list_conversations}
use pdn_whatspac_client.Store.Queries.{
  list_channels, list_posts, list_direct_messages, online_callsigns, get_ham,
}
use pdn_whatspac_client.Store.Newest.{list_posts-put_post}
use pdn_whatspac_client.Agent.Lifecycle.{
  AgentStatus, idle, connecting, running, reconnecting, stopped,
}
use pdn_whatspac_client.Agent.Outbound.{Identity, own_post, post_to_channel}
use pdn_whatspac_client.Web.App.{
  may_mutate, Response, post_posts, handle, awaited, text_of, on_posts,
}
use pdn_whatspac_client.Web.App

-- The reading routes, with the header `X-Pdn-User` and `X-Pdn-Scope` where they are read.
pub data Read : Type 0 where
  status : Option Text → Option Text → Read
  online channels conversations : Read
  posts_of : Text → Read
  messages_with : Callsign → Read

abbrev pub natural : ℕ → Json
natural n = num false n []

abbrev pub or_null : Option Text → Json
or_null none = null
or_null (some s) = str s

-- `header || null`.
abbrev pub header_or_null : Option Text → Json
header_or_null none = null
header_or_null (some []) = null
header_or_null (some (c ∷ s)) = str (c ∷ s)

abbrev pub number_or_null : Option ℕ → Json
number_or_null none = null
number_or_null (some n) = natural n

abbrev pub array {ℓ} : {A : Type ℓ} → (A → Fields) → List A → Items
array write [] = nil
array write (a ∷ as') = cons (obj (write a)) (array write as')

abbrev pub texts : List Text → Items
texts [] = nil
texts (s ∷ ss) = cons (str s) (texts ss)

abbrev pub status_text : AgentStatus → Text
status_text idle = codes "idle"
status_text connecting = codes "connecting"
status_text running = codes "running"
status_text reconnecting = codes "reconnecting"
status_text stopped = codes "stopped"

abbrev pub status_object : AgentStatus → Callsign → Option Text → Option Text → Fields
status_object s mine viewer scope = field (codes "status") (str (status_text s)) (
    field (codes "callsign") (str mine) (
      field (codes "viewer") (header_or_null viewer)
        (field (codes "scope") (header_or_null scope) end)))

-- `store.getHam(c)?.n`.
abbrev pub name_of : Option HamRow → Option Text
name_of none = none
name_of (some q) = q.n

-- `hams`: the names that are neither missing nor empty.
abbrev pub name_field : Callsign → Option Text → Fields → Fields
name_field call none fs = fs
name_field call (some []) fs = fs
name_field call (some (c ∷ n)) fs = field call (str (c ∷ n)) fs

abbrev pub name_fields : Store → List Callsign → Fields
name_fields store [] = end
name_fields store (call ∷ calls) =
    name_field call (name_of (get_ham call store)) (name_fields store calls)

abbrev pub online_object : Store → Fields
online_object store =
    let calls = online_callsigns store in
    field (codes "online") (arr (texts calls))
      (field (codes "hams") (obj (name_fields store calls)) end)

abbrev pub channel_object : ChannelRow → Fields
channel_object c =
    field (codes "cid") (str c.cid)
      (field (codes "cn") (or_null c.cn) (field (codes "subscribed") (bool c.subscribed) end))

-- A post with `withSenderName`.
abbrev pub post_object : Store → PostRow → Fields
post_object store p = field (codes "_id") (str p.id) (
    field (codes "cid") (str p.cid) (
      field (codes "fc") (str p.fc) (
        field (codes "p") (str p.p) (
          field (codes "ts") (natural p.ts) (
            field (codes "rts") (number_or_null p.rts) (
              field (codes "rfc") (or_null p.rfc)
                (field (codes "senderName") (or_null (name_of (get_ham p.fc store))) end)))))))

abbrev pub message_object : MessageRow → Fields
message_object m = field (codes "_id") (str m.id) (
    field (codes "sid") (str m.sid) (
      field (codes "fc") (str m.fc) (
        field (codes "tc") (str m.tc)
          (field (codes "m") (str m.m) (field (codes "ts") (natural m.ts) end)))))

abbrev pub conversation_object : ConversationRow → Fields
conversation_object c = field (codes "sid") (str c.sid) (
    field (codes "peer") (str c.peer) (
      field (codes "lastText") (str c.last_text)
        (field (codes "lastTs") (natural c.last_ts) (field (codes "count") (natural c.count) end))))

-- What a reading route answers; a listing without a limit takes 100 rows.
unfoldable pub body_of : AgentStatus → Callsign → Store → Read → Json
body_of s mine store (status viewer scope) = obj (status_object s mine viewer scope)
body_of s mine store online = obj (online_object store)
body_of s mine store channels = arr (array channel_object (list_channels store))
body_of s mine store (posts_of cid) = arr (array (post_object store) (list_posts cid 100 store))
body_of s mine store conversations = arr (array conversation_object (list_conversations mine store))
body_of s mine store (messages_with peer) =
    arr (array message_object (list_direct_messages (conversation_id mine peer) 100 store))

-- The body that posts a text.
abbrev pub text_body : Text → Json
text_body text = obj (field (codes "text") (str text) end)

posted :
    (goes : Bool) (scope : Option Text) (cid text : Text)
    → may_mutate scope ≡ true
    → is_blank text ≡ false
    → handle goes scope (post_posts cid) (some (text_body text))
      ≡ awaited goes (App.post_to_channel cid text) 201
unfolding handle App.property get text_eq
posted goes scope cid text m b = rw (m, b)

-- The row of a post that the agent makes.
abbrev pub posted_row : Identity → ℕ → Text → Text → PostRow
posted_row who now cid text = record {
  id = write_nat now (45 ∷ who.callsign);
  cid = cid;
  fc = who.callsign;
  p = text;
  ts = now;
  ets = 0;
  edts = 0;
  rts = none;
  rfc = none;
  at = none;
}

-- A text that is not blank, posted by someone who may change things: the route asks the agent to
-- post it, and answers by 201, or by 500 where the agent's call fails. What the agent does puts it
-- in front of the list that the channel's reading route then answers with, with its text, the
-- agent's callsign and the time, whether the message goes out or not, where the post's id is new and every post of the store is older.
pub handle-posts_of :
    (who : Identity) (goes : Bool) (now : ℕ) (cid text : Text) (scope : Option Text)
    (a : AgentStatus) (s : Store)
    → may_mutate scope ≡ true
    → is_blank text ≡ false
    → Absent (λ q. q.id) (write_nat now (45 ∷ who.callsign)) s.posts
    → All (λ q. q.ts < now) s.posts
    → let t = (post_to_channel who goes now cid text s).store in
      (handle goes scope (post_posts cid) (some (text_body text))
        ≡ awaited goes (App.post_to_channel cid text) 201)
      × (body_of a who.callsign t (posts_of cid)
          ≡ arr (array (post_object t) (posted_row who now cid text ∷ list_posts cid 99 s)))
unfolding body_of post_to_channel
handle-posts_of who goes now cid text scope a s m b new old =
    let p = own_post who now cid text in
    let t = put_post p s in
    (
      posted goes scope cid text m b,
      ap (λ rows. arr (array (post_object t) rows)) (list_posts-put_post p 99 s new old),
    )
