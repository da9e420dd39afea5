-- ===== src/Rf/Session/Plain/Steps.antt =====
-- Each step of a session of src/heads/rf/session.ts shows lines without line feeds.
use pdn_whatspac_client.Base.{
  ℕ, zero, suc, inl, inr, Bool-cases, Bool, true, false, not, ◌&&◌, Option, none, some, List, [],
  ◌∷◌, ◌++◌, map, Text, codes, text_eq, All, All-map, length, get_or, ltb, if◌then◌else◌, arith,
}
use pdn_whatspac_client.Protocol.Messages.{Callsign, DirectMessage, ChannelPost}
use pdn_whatspac_client.Store.{Store, ChannelRow, post_row, message_row}
use pdn_whatspac_client.Store.Conversation.{conversation_id}
use pdn_whatspac_client.Store.Queries.{list_channels}
use pdn_whatspac_client.Rf.Session.{
  View, menu, channel, dm, Session, Command, help, menu_, channels, who, conversations, quit, open_,
  post, talk, send, subscribe, unknown, Output, live_post, live_message, show_menu,
  index_of_channels, at_index, parse_int, opened, cmd_open_channel, cmd_open_dm, cmd_post,
  cmd_subscribe, cmd_send_dm, on_command, feed_line, forward_post, forward_message, Request,
  posting, sending, subscribing, on_settled, Event, settled, line, posted, messaged, gone, step,
  set_view,
}
use pdn_whatspac_client.Rf.Session.Lines.Plain.{shown_of}
use pdn_whatspac_client.Rf.Session.Wording.Plain.{IsLine, append-IsLine}
use pdn_whatspac_client.Rf.Session.Wording.Rows.{IsPlain}
use pdn_whatspac_client.Rf.Session.Plain.{
  IsPlainStore, list_channels-IsPlain, list_posts-IsPlain, list_direct_messages-IsPlain,
  online_callsigns-IsPlain, list_conversations-IsPlain,
}

-- The channels that `O <n>` numbers hold no line feed.
abbrev pub IsPlainSession : Session → Type 0
IsPlainSession s = All IsLine s.channel_index

abbrev pub ArePlain : Session × List Output → Type 0
ArePlain (s, outputs) = IsPlainSession s × All IsPlain outputs

keys-AreLines :
    (cs : List ChannelRow) → All (λ c. IsLine c.cid) cs → All IsLine (map (λ c. c.cid) cs)
keys-AreLines [] h = tt
keys-AreLines (c ∷ cs) h = (h.0, keys-AreLines cs h.1)

module _ (store : Store) (plain : IsPlainStore store) where
  listed-AreLines : All IsLine (map (λ c. c.cid) (list_channels store))
  listed-AreLines = keys-AreLines (list_channels store) (
      All-map _ (λ c. IsLine c.cid) (list_channels store) (λ c h. h.0)
        (list_channels-IsPlain store plain))

  index_of_channels-AreLines :
      (index : List Text) → All IsLine index → All IsLine (index_of_channels index store)
  index_of_channels-AreLines [] h = listed-AreLines
  index_of_channels-AreLines (c ∷ cs) h = h

get_or-IsLine : (xs : List Text) (i : ℕ) → All IsLine xs → IsLine (get_or xs i [])
get_or-IsLine [] i h = tt
get_or-IsLine (x ∷ xs) zero h = h.0
get_or-IsLine (x ∷ xs) (suc i) h = get_or-IsLine xs i h.1

abbrev IsPlainKey : Option Text → Type 0
IsPlainKey none = Unit {0}
IsPlainKey (some cid) = IsLine cid

at_index-IsPlain :
    (index : List Text) (i : Option ℕ) → All IsLine index → IsPlainKey (at_index index i)
at_index-IsPlain index none h = tt
at_index-IsPlain index (some zero) h = tt
at_index-IsPlain index (some (suc i)) h = elim (Bool-cases (ltb i (length index))) [
  | inl y ↦ rw y (get_or-IsLine index i h)
  | inr n ↦ rw n tt
]

-- The texts that the code itself writes.
abbrev Says : List Output → Type 0
Says outputs = All IsPlain outputs

cmd_post-ArePlain : (v : View) (text : Text) → Says (cmd_post v text)
cmd_post-ArePlain menu text = (omega arith, tt)
cmd_post-ArePlain (channel cid) [] = (omega arith, tt)
cmd_post-ArePlain (channel cid) (x ∷ text) = (tt, tt)
cmd_post-ArePlain (dm peer sid) text = (omega arith, tt)

cmd_subscribe-ArePlain : (v : View) (on : Bool) → Says (cmd_subscribe v on)
cmd_subscribe-ArePlain menu on = (omega arith, tt)
cmd_subscribe-ArePlain (channel cid) on = (tt, tt)
cmd_subscribe-ArePlain (dm peer sid) on = (omega arith, tt)

cmd_send_dm-ArePlain : (v : View) (text : Text) → Says (cmd_send_dm v text)
cmd_send_dm-ArePlain menu text = (omega arith, tt)
cmd_send_dm-ArePlain (channel cid) text = (omega arith, tt)
cmd_send_dm-ArePlain (dm peer sid) [] = (omega arith, tt)
cmd_send_dm-ArePlain (dm peer sid) (x ∷ text) = (tt, tt)

pub show_menu-ArePlain : Says show_menu
show_menu-ArePlain = (omega arith, (omega arith, tt))

unless-ArePlain :
    (b : Bool) (s : Session) (r : Session × List Output)
    → IsPlainSession s
    → ArePlain r
    → ArePlain (if b then (s, []) else r)
unless-ArePlain true s r h k = (h, tt)
unless-ArePlain false s r h k = k

module _ (mine : Callsign) (store : Store) (plain : IsPlainStore store) where
  opened-ArePlain :
      (cid : Option Text) (s : Session)
      → IsPlainKey cid
      → IsPlainSession s
      → ArePlain (opened store cid s)
  opened-ArePlain none s k h = (h, (omega arith, tt))
  opened-ArePlain (some cid) s k h =
      (unfold set_view in h, (k, (list_posts-IsPlain store plain cid, (omega arith, tt))))

  cmd_open_channel-ArePlain :
      (arg : Text) (s : Session) → IsPlainSession s → ArePlain (cmd_open_channel store arg s)
  unfolding cmd_open_channel
  cmd_open_channel-ArePlain arg s h =
      let index = index_of_channels s.channel_index store in
      let fine = index_of_channels-AreLines store plain s.channel_index h in
      opened-ArePlain (at_index index (parse_int arg)) (record s { channel_index = index })
        (at_index-IsPlain index (parse_int arg) fine) fine

  cmd_open_dm-ArePlain :
      (peer : Text) (s : Session)
      → IsLine peer
      → IsPlainSession s
      → ArePlain (cmd_open_dm mine store peer s)
  cmd_open_dm-ArePlain [] s k h = (h, (omega arith, tt))
  cmd_open_dm-ArePlain (x ∷ peer) s k h =
      let sid = conversation_id mine (x ∷ peer) in
      (unfold set_view in h, (k, (list_direct_messages-IsPlain store plain sid, (omega arith, tt))))

  on_command-ArePlain :
      (c : Command) (s : Session)
      → IsLine (shown_of c)
      → IsPlainSession s
      → ArePlain (on_command mine store c s)
  unfolding on_command
  on_command-ArePlain help s k h = (h, (tt, tt))
  on_command-ArePlain menu_ s k h = (unfold set_view in h, show_menu-ArePlain)
  on_command-ArePlain channels s k h =
      (listed-AreLines store plain, (list_channels-IsPlain store plain, tt))
  on_command-ArePlain (open_ arg) s k h = cmd_open_channel-ArePlain arg s h
  on_command-ArePlain (post text) s k h = (h, cmd_post-ArePlain s.view text)
  on_command-ArePlain (subscribe on) s k h = (h, cmd_subscribe-ArePlain s.view on)
  on_command-ArePlain who s k h = (h, (online_callsigns-IsPlain store plain, tt))
  on_command-ArePlain conversations s k h = (h, (list_conversations-IsPlain mine store plain, tt))
  on_command-ArePlain (talk peer) s k h = cmd_open_dm-ArePlain peer s k h
  on_command-ArePlain (send text) s k h = (h, cmd_send_dm-ArePlain s.view text)
  on_command-ArePlain quit s k h = (h, (omega arith, tt))
  on_command-ArePlain (unknown verb) s k h =
      let words = append-IsLine verb (codes "  (H for help)") k (omega arith) in
      (
        h,
        (
          append-IsLine (codes "? unknown: ") (verb ++ codes "  (H for help)") (omega arith) words,
          tt,
        ),
      )

  pub feed_line-ArePlain :
      (c : Command) (s : Session)
      → IsLine (shown_of c)
      → IsPlainSession s
      → ArePlain (feed_line mine store c s)
  unfolding feed_line
  feed_line-ArePlain c s k h =
      unless-ArePlain s.disposed s (on_command mine store c s) h (on_command-ArePlain c s k h)

-- What happens to a session, less the lines of its user.
abbrev IsPlainText : Option Text → Type 0
IsPlainText none = Unit {0}
IsPlainText (some text) = IsLine text

abbrev pub IsPlainEvent : Event → Type 0
IsPlainEvent (settled request error) = IsPlainText error
IsPlainEvent (line store c) = IsPlainStore store × IsLine (shown_of c)
IsPlainEvent (posted p) = IsLine p.fc
IsPlainEvent (messaged m) = IsLine m.fc
IsPlainEvent gone = Unit {0}

on_settled-ArePlain :
    (request : Request) (error : Option Text) → IsPlainText error → Says (on_settled request error)
on_settled-ArePlain posting none h = tt
on_settled-ArePlain posting (some error) h =
    (append-IsLine (codes "! post failed: ") error (omega arith) h, tt)
on_settled-ArePlain sending none h = tt
on_settled-ArePlain sending (some error) h =
    (append-IsLine (codes "! send failed: ") error (omega arith) h, tt)
on_settled-ArePlain (subscribing true) none h = (omega arith, tt)
on_settled-ArePlain (subscribing false) none h = (omega arith, tt)
on_settled-ArePlain (subscribing on) (some error) h =
    (append-IsLine (codes "! failed: ") error (omega arith) h, tt)

if-ArePlain : (b : Bool) (os : List Output) → Says os → Says (if b then os else [])
if-ArePlain true os h = h
if-ArePlain false os h = tt

emit-ArePlain : (b : Bool) (os : List Output) → Says os → Says (if b then [] else os)
emit-ArePlain true os h = tt
emit-ArePlain false os h = h

module _ (mine : Callsign) where
  forward_post-ArePlain :
      (p : ChannelPost) (live : Option View) → IsLine p.fc → Says (forward_post mine p live)
  forward_post-ArePlain p none h = tt
  forward_post-ArePlain p (some menu) h = tt
  forward_post-ArePlain p (some (channel cid)) h =
      if-ArePlain (text_eq p.cid cid && not (text_eq p.fc mine)) (live_post (post_row p) ∷ [])
        (h, tt)
  forward_post-ArePlain p (some (dm peer sid)) h = tt

  forward_message-ArePlain :
      (m : DirectMessage) (live : Option View) → IsLine m.fc → Says (forward_message mine m live)
  forward_message-ArePlain m none h = tt
  forward_message-ArePlain m (some menu) h = tt
  forward_message-ArePlain m (some (channel cid)) h = tt
  forward_message-ArePlain m (some (dm peer sid)) h =
      if-ArePlain (text_eq (conversation_id m.fc m.tc) sid && not (text_eq m.fc mine))
        (live_message (message_row m) ∷ []) (h, tt)

  -- Each event leaves the session plain and shows plain outputs.
  pub step-ArePlain :
      (e : Event) (s : Session) → IsPlainEvent e → IsPlainSession s → ArePlain (step mine e s)
  unfolding step
  step-ArePlain (settled request error) s k h =
      (h, emit-ArePlain s.disposed (on_settled request error) (on_settled-ArePlain request error k))
  step-ArePlain (line store c) s k h = feed_line-ArePlain mine store k.0 c s k.1 h
  step-ArePlain (posted p) s k h = (h, forward_post-ArePlain p s.live k)
  step-ArePlain (messaged m) s k h = (h, forward_message-ArePlain m s.live k)
  step-ArePlain gone s k h = (h, tt)
