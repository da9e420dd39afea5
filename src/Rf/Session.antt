-- ===== src/Rf/Session.antt =====
-- The session of src/heads/rf/session.ts: its views, and what a command does. A line comes as the
-- command that `feedLine` reads in it (Lines). An output is what a command shows (Wording), or what
-- it asks of the agent; the promise of that is settled by a later event.
pub mod Live
pub mod Lines
pub mod Wording
pub mod Plain
use pdn_whatspac_client.Base.{
  ℕ, zero, suc, ◌-◌, Bool, true, false, not, ◌&&◌, ◌||◌, Option, none, some, List, [], ◌∷◌, ◌++◌,
  map, Text, codes, text_eq, length, get_or, ltb, ◌==◌, if◌then◌else◌,
}
use pdn_whatspac_client.Js.Json.Numbers.{span_digits, value_of}
use pdn_whatspac_client.Protocol.Messages.{Callsign, DirectMessage, ChannelPost}
use pdn_whatspac_client.Store.{Store, ChannelRow, MessageRow, PostRow, post_row, message_row}
use pdn_whatspac_client.Store.Conversations.{ConversationRow, list_conversations}
use pdn_whatspac_client.Store.Conversation.{conversation_id}
use pdn_whatspac_client.Store.Queries.{
  list_channels, list_posts, list_direct_messages, online_callsigns,
}

-- `View`.
pub data View : Type 0 where
  menu : View
  channel : Text → View
  dm : Callsign → Text → View

-- `live` is the view whose traffic the listener on the agent forwards: `unsubscribe` is set where
-- it is some.
pub record Session : Type 0 where
  pub view : View
  pub channel_index : List Text
  pub live : Option View
  pub disposed : Bool

abbrev pub fresh : Session
fresh = record { view = menu; channel_index = []; live = none; disposed = false }

pub data Command : Type 0 where
  help menu_ channels who conversations quit : Command
  open_ post talk send : Text → Command
  subscribe : Bool → Command
  unknown : Text → Command

pub data Output : Type 0 where
  says : Text → Output
  shows_help : Output
  shows_channels : List ChannelRow → Output
  shows_title : View → Output
  shows_posts : List PostRow → Output
  shows_messages : List MessageRow → Output
  shows_online : List Callsign → Output
  shows_conversations : List ConversationRow → Output
  live_post : PostRow → Output
  live_message : MessageRow → Output
  posts_to : Text → Text → Output
  sends_to : Callsign → Text → Output
  subscribes_to : Bool → Text → Output

abbrev pub history_limit : ℕ
history_limit = 10

-- `clearLive` and `setView`.
abbrev pub live_of : View → Option View
live_of menu = none
live_of (channel cid) = some (channel cid)
live_of (dm peer sid) = some (dm peer sid)

unfoldable pub set_view : View → Session → Session
set_view next s = record s { view = next; live = live_of next }

-- `Number.parseInt(arg, 10)` on a trimmed text; below 1 and NaN come to the same.
abbrev pub digits_value : List ℕ × Text → Option ℕ
digits_value ([], rest) = none
digits_value (d ∷ ds, rest) = some (value_of 0 (d ∷ ds))

unfoldable pub parse_int : Text → Option ℕ
parse_int [] = none
parse_int (c ∷ s) =
    if c == 43 then digits_value (span_digits s) else digits_value (span_digits (c ∷ s))

-- The channel that `O <n>` names.
abbrev pub at_index : List Text → Option ℕ → Option Text
at_index index none = none
at_index index (some zero) = none
at_index index (some (suc i)) = if ltb i (length index) then some (get_or index i []) else none

abbrev pub index_of_channels : List Text → Store → List Text
index_of_channels [] store = map (λ c. c.cid) (list_channels store)
index_of_channels (c ∷ cs) store = c ∷ cs

abbrev pub opened : Store → Option Text → Session → Session × List Output
opened store none s = (s, says (codes "Usage: O <n>  (CH lists channels)") ∷ [])
opened store (some cid) s = (
  set_view (channel cid) s,
  shows_title (channel cid)
      ∷ shows_posts (list_posts cid history_limit store)
      ∷ says (codes "P <text> to post, M for menu.")
      ∷ [],
)

-- `cmdOpenChannel`.
unfoldable pub cmd_open_channel : Store → Text → Session → Session × List Output
cmd_open_channel store arg s =
    let index = index_of_channels s.channel_index store in
    opened store (at_index index (parse_int arg)) (record s { channel_index = index })

-- `cmdOpenDm`, on the callsign in upper case.
abbrev pub cmd_open_dm : Callsign → Store → Text → Session → Session × List Output
cmd_open_dm mine store [] s = (s, says (codes "Usage: T <callsign>") ∷ [])
cmd_open_dm mine store (x ∷ peer) s =
    let sid = conversation_id mine (x ∷ peer) in
    (
      set_view (dm (x ∷ peer) sid) s,
      shows_title (dm (x ∷ peer) sid)
          ∷ shows_messages (list_direct_messages sid history_limit store)
          ∷ says (codes "S <text> to send, M for menu.")
          ∷ [],
    )

-- `cmdPost`, `cmdSubscribe` and `cmdSendDm`: what they ask of the agent.
abbrev pub cmd_post : View → Text → List Output
cmd_post (channel cid) [] = says (codes "Usage: P <text>") ∷ []
cmd_post (channel cid) (x ∷ text) = posts_to cid (x ∷ text) ∷ []
cmd_post _ text = says (codes "Open a channel first (CH then O <n>).") ∷ []

abbrev pub cmd_subscribe : View → Bool → List Output
cmd_subscribe (channel cid) on = subscribes_to on cid ∷ []
cmd_subscribe _ on = says (codes "Open a channel first (CH then O <n>).") ∷ []

abbrev pub cmd_send_dm : View → Text → List Output
cmd_send_dm (dm peer sid) [] = says (codes "Usage: S <text>") ∷ []
cmd_send_dm (dm peer sid) (x ∷ text) = sends_to peer (x ∷ text) ∷ []
cmd_send_dm _ text = says (codes "Open a conversation first (T <call>).") ∷ []

abbrev pub show_menu : List Output
show_menu =
    says (codes "--- WhatsPac ---")
    ∷ says (codes "CH channels  WHO online  DM messages  H help  Q quit")
    ∷ []

abbrev pub cmd_channels : Store → Session → Session × List Output
cmd_channels store s = (
  record s { channel_index = map (λ c. c.cid) (list_channels store) },
  shows_channels (list_channels store) ∷ [],
)

-- The `switch` of `feedLine`.
unfoldable pub on_command : Callsign → Store → Command → Session → Session × List Output
on_command mine store help s = (s, shows_help ∷ [])
on_command mine store menu_ s = (set_view menu s, show_menu)
on_command mine store channels s = cmd_channels store s
on_command mine store (open_ arg) s = cmd_open_channel store arg s
on_command mine store (post text) s = (s, cmd_post s.view text)
on_command mine store (subscribe on) s = (s, cmd_subscribe s.view on)
on_command mine store who s = (s, shows_online (online_callsigns store) ∷ [])
on_command mine store conversations s =
    (s, shows_conversations (list_conversations mine store) ∷ [])
on_command mine store (talk peer) s = cmd_open_dm mine store peer s
on_command mine store (send text) s = (s, cmd_send_dm s.view text)
on_command mine store quit s = (s, says (codes "73.") ∷ [])
on_command mine store (unknown verb) s =
    (s, says (codes "? unknown: " ++ verb ++ codes "  (H for help)") ∷ [])

unfoldable pub feed_line : Callsign → Store → Command → Session → Session × List Output
feed_line mine store c s = if s.disposed then (s, []) else on_command mine store c s

-- `dispose`.
abbrev pub dispose : Session → Session
dispose s = record s { disposed = true; live = none }

-- The listeners of `setView`.
abbrev pub forward_post : Callsign → ChannelPost → Option View → List Output
forward_post mine p (some (channel cid)) =
    if text_eq p.cid cid && not (text_eq p.fc mine) then live_post (post_row p) ∷ [] else []
forward_post mine p _ = []

abbrev pub forward_message : Callsign → DirectMessage → Option View → List Output
forward_message mine m (some (dm peer sid)) =
    if text_eq (conversation_id m.fc m.tc) sid && not (text_eq m.fc mine)
    then live_message (message_row m) ∷ []
    else []
forward_message mine m _ = []

-- What `cmdPost`, `cmdSubscribe` and `cmdSendDm` wait for, and what they show when it is settled: by
-- no error, or by one with this text.
pub data Request : Type 0 where
  posting sending : Request
  subscribing : Bool → Request

abbrev pub on_settled : Request → Option Text → List Output
on_settled posting none = []
on_settled posting (some error) = says (codes "! post failed: " ++ error) ∷ []
on_settled sending none = []
on_settled sending (some error) = says (codes "! send failed: " ++ error) ∷ []
on_settled (subscribing true) none = says (codes "Subscribed.") ∷ []
on_settled (subscribing false) none = says (codes "Unsubscribed.") ∷ []
on_settled (subscribing on) (some error) = says (codes "! failed: " ++ error) ∷ []

-- `emit`: nothing once the session is disposed of.
abbrev pub emit : Session → List Output → List Output
emit s outputs = if s.disposed then [] else outputs

pub data Event : Type 0 where
  settled : Request → Option Text → Event
  line : Store → Command → Event
  posted : ChannelPost → Event
  messaged : DirectMessage → Event
  gone : Event

unfoldable pub step : Callsign → Event → Session → Session × List Output
step mine (line store c) s = feed_line mine store c s
step mine (posted p) s = (s, forward_post mine p s.live)
step mine (messaged m) s = (s, forward_message mine m s.live)
step mine (settled request error) s = (s, emit s (on_settled request error))
step mine gone s = (dispose s, [])

unfoldable pub run : Callsign → List Event → Session → Session × List Output
run mine [] s = (s, [])
run mine (e ∷ es) s =
    let (t, outputs) = step mine e s in let (u, more) = run mine es t in (u, outputs ++ more)
