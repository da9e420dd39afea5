-- ===== src/Rf/Session/Wording.antt =====
-- The wording of src/heads/rf/session.ts: the lines that an output is written as.
pub mod Plain
pub mod Rows
pub mod OneLine
use mathlib.Core.List.{reverse}
use pdn_whatspac_client.Base.{
  ℕ, zero, suc, ◌+◌, ◌-◌, Bool, true, false, ◌&&◌, ◌||◌, not, Option, none, some, List, [], ◌∷◌,
  ◌++◌, map, Text, codes, text_eq, starts_with, length, take, drop, ltb, leb, ◌==◌, if◌then◌else◌,
}
use pdn_whatspac_client.Js.Trim.{is_space, is_blank}
use pdn_whatspac_client.Js.Case.{ascii_lower}
use pdn_whatspac_client.Js.Json.Numbers.{write_nat}
use pdn_whatspac_client.Protocol.Messages.{Callsign}
use pdn_whatspac_client.Store.{Store, HamRow, ChannelRow, MessageRow, PostRow}
use pdn_whatspac_client.Store.Conversations.{ConversationRow}
use pdn_whatspac_client.Store.Queries.{list_channels, count_posts, get_ham}
use pdn_whatspac_client.Rf.Session.{
  View, menu, channel, dm, Output, says, shows_help, shows_channels, shows_title, shows_posts,
  shows_messages, shows_online, shows_conversations, live_post, live_message, posts_to, sends_to,
  subscribes_to,
}

-- `HELP_LINES`.
abbrev pub help_lines : List Text
help_lines =
    codes "Commands:"
    ∷ codes "  CH            list channels"
    ∷ codes "  O <n>         open channel n (from CH)"
    ∷ codes "  P <text>      post to the open channel"
    ∷ codes "  SUB / UNSUB   (un)subscribe the open channel"
    ∷ codes "  WHO           who is online"
    ∷ codes "  DM            list DM conversations"
    ∷ codes "  T <call>      open/start a DM with <call>"
    ∷ codes "  S <text>      send a DM in the open conversation"
    ∷ codes "  M             back to the menu"
    ∷ codes "  H             this help"
    ∷ codes "  Q             quit"
    ∷ []

abbrev pub preview_limit : ℕ
preview_limit = 40

abbrev pub image_omitted : Text
image_omitted = codes "[image omitted]"

-- `/^data:image\//i`.
abbrev pub is_data_image : Text → Bool
is_data_image text = starts_with (map ascii_lower text) (codes "data:image/")

abbrev pub is_base64_unit : ℕ → Bool
is_base64_unit c =
    (leb b'A' c && leb c b'Z')
    || (leb b'a' c && leb c b'z')
    || (leb b'0' c && leb c b'9')
    || c == b'+'
    || c == b'/'

abbrev pub all_units : (ℕ → Bool) → Text → Bool
all_units p [] = true
all_units p (c ∷ s) = p c && all_units p s

-- `/^\/9j\/[A-Za-z0-9+/]{40,}/`.
abbrev pub is_bare_jpeg : Text → Bool
is_bare_jpeg text =
    starts_with text (codes "/9j/")
    && leb 44 (length text)
    && all_units is_base64_unit (take 40 (drop 4 text))

-- `[^\s)]` fails.
abbrev pub is_stop : ℕ → Bool
is_stop c = is_space c || c == b')'

abbrev pub goes_on : Text → Bool
goes_on [] = false
goes_on (c ∷ s) = not (is_stop c)

-- The match of `/data:image\/[^\s)]+/gi` starts here.
abbrev pub image_starts : Text → Bool
image_starts text = is_data_image text && goes_on (drop 11 text)

-- The replacement of all matches: `skip` characters of a match's fixed part are left, and behind
-- them the match goes on to the first stop. A stop starts no match.
unfoldable pub replace_images : ℕ → Bool → Text → Text
replace_images skip inside [] = []
replace_images (suc skip) inside (c ∷ s) = replace_images skip inside s
replace_images zero true (c ∷ s) =
    let out = replace_images 0 false s in
    let on = replace_images 0 true s in if is_stop c then c ∷ out else on
replace_images zero false (c ∷ s) =
    let match = replace_images 10 true s in
    let plain = replace_images 0 false s in
    if image_starts (c ∷ s) then image_omitted ++ match else c ∷ plain

-- `.replace(/\r/g, "").replace(/\n/g, " ")`.
unfoldable pub on_one_line : Text → Text
on_one_line [] = []
on_one_line (c ∷ s) =
    let rest = on_one_line s in if c == 13 then rest else if c == 10 then 32 ∷ rest else c ∷ rest

unfoldable pub scrub : Text → Text
scrub [] = codes "(empty)"
scrub (c ∷ text) =
    if is_data_image (c ∷ text) || is_bare_jpeg (c ∷ text)
    then image_omitted
    else on_one_line (replace_images 0 false (c ∷ text))

unfoldable pub truncate : Text → ℕ → Text
truncate text max = if ltb max (length text) then take (max - 1) text ++ codes "…" else text

-- `channelLabel` and `senderLabel`.
abbrev pub channel_label : Text → Option Text → Text
channel_label cid none = cid
channel_label cid (some cn) = if is_blank cn then cid else cn

abbrev pub name_of : Option HamRow → Option Text
name_of none = none
name_of (some q) = q.n

abbrev pub named : Callsign → Option Text → Text
named c none = c
named c (some n) = if is_blank n then c else c ++ (codes " (" ++ (n ++ codes ")"))

abbrev pub sender_label : Store → Callsign → Text
sender_label store c = named c (name_of (get_ham c store))

abbrev pub format_post : Store → PostRow → Text
format_post store p = codes "[" ++ (sender_label store p.fc ++ (codes "] " ++ scrub p.p))

abbrev pub format_dm : Callsign → Store → MessageRow → Text
format_dm mine store m =
    let who = if text_eq m.fc mine then codes "me" else sender_label store m.fc in
    codes "[" ++ (who ++ (codes "] " ++ scrub m.m))

abbrev pub channel_line : Store → ℕ → ChannelRow → Text
channel_line store i c =
    (if c.subscribed then codes "*" else codes " ")
    ++ write_nat i (
        codes ". "
        ++ (channel_label c.cid c.cn
            ++ (codes " (" ++ write_nat (count_posts c.cid store) (codes ")"))))

abbrev pub channel_lines : Store → ℕ → List ChannelRow → List Text
channel_lines store i [] = []
channel_lines store i (c ∷ cs) = channel_line store i c ∷ channel_lines store (i + 1) cs

abbrev pub conversation_line : ConversationRow → Text
conversation_line c =
    codes "  "
    ++ (c.peer
        ++ (codes " ("
            ++ write_nat c.count (codes "): " ++ truncate (scrub c.last_text) preview_limit)))

-- `online.join(", ")`.
abbrev pub joined : List Callsign → Text
joined [] = []
joined (c ∷ []) = c
joined (c ∷ d ∷ cs) = c ++ (codes ", " ++ joined (d ∷ cs))

abbrev pub name_in : Text → List ChannelRow → Option Text
name_in cid [] = none
name_in cid (c ∷ cs) = let rest = name_in cid cs in if text_eq c.cid cid then c.cn else rest

abbrev pub title : Store → View → Text
title store menu = []
title store (channel cid) =
    codes "== " ++ (channel_label cid (name_in cid (list_channels store)) ++ codes " ==")
title store (dm peer sid) = codes "== DM " ++ (peer ++ codes " ==")

abbrev pub or_else_line : Text → List Text → List Text
or_else_line line [] = line ∷ []
or_else_line line (l ∷ ls) = l ∷ ls

-- A count and its rows, where there are any.
abbrev pub counted {ℓ} : {A : Type ℓ} → List A → Text → Text → Text → List Text → List Text
counted [] nothing before behind rows = nothing ∷ []
counted (x ∷ xs) nothing before behind rows = (before ++ write_nat (length (x ∷ xs)) behind) ∷ rows

-- The lines of an output. What is asked of the agent shows nothing. The history comes newest first,
-- and is shown newest last.
unfoldable pub lines_of : Callsign → Store → Output → List Text
lines_of mine store (says text) = text ∷ []
lines_of mine store shows_help = help_lines
lines_of mine store (shows_channels cs) =
    counted cs (codes "No channels yet.") (codes "Channels (") (codes ") — O <n> to open:")
      (channel_lines store 1 cs)
lines_of mine store (shows_title v) = title store v ∷ []
lines_of mine store (shows_posts ps) =
    or_else_line (codes "(no posts)") (map (format_post store) (reverse ps))
lines_of mine store (shows_messages ms) =
    or_else_line (codes "(no messages)") (map (format_dm mine store) (reverse ms))
lines_of mine store (shows_online cs) = elim cs [
  | [] ↦ codes "Nobody online." ∷ []
  | c ∷ ds ↦ (codes "Online (" ++ write_nat (length (c ∷ ds)) (codes "): " ++ joined (c ∷ ds))) ∷ []
]
lines_of mine store (shows_conversations cs) =
    counted cs (codes "No conversations. T <call> to start one.") (codes "DMs (")
      (codes ") — T <call> to open:") (map conversation_line cs)
lines_of mine store (live_post p) = (codes ">> " ++ format_post store p) ∷ []
lines_of mine store (live_message m) = (codes ">> " ++ format_dm mine store m) ∷ []
lines_of mine store (posts_to cid text) = []
lines_of mine store (sends_to peer text) = []
lines_of mine store (subscribes_to on cid) = []
