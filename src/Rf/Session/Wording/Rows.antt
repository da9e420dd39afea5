-- ===== src/Rf/Session/Wording/Rows.antt =====
-- The lines that src/heads/rf/session.ts makes of rows hold no line feed, where the names and keys
-- hold none.
use pdn_whatspac_client.Base.{
  ℕ, ◌+◌, inl, inr, Bool-cases, Bool, true, false, List, [], ◌∷◌, ◌++◌, Text, codes, text_eq, All,
  if◌then◌else◌, arith,
}
use pdn_whatspac_client.Js.Json.Numbers.{write_nat}
use pdn_whatspac_client.Protocol.Messages.{Callsign}
use pdn_whatspac_client.Store.{Store, ChannelRow, MessageRow, PostRow}
use pdn_whatspac_client.Store.Conversations.{ConversationRow}
use pdn_whatspac_client.Store.Queries.{sql_leb, order_by-All, list_channels, count_posts}
use pdn_whatspac_client.Store.Rows.{find}
use pdn_whatspac_client.Rf.Session.{
  View, menu, channel, dm, Output, says, shows_channels, shows_title, shows_posts, shows_messages,
  shows_online, shows_conversations, live_post, live_message,
}
use pdn_whatspac_client.Rf.Session.Wording.{
  channel_label, channel_line, channel_lines, conversation_line, joined, name_in, title, scrub,
  truncate, name_of, sender_label, format_post, format_dm,
}
use pdn_whatspac_client.Rf.Session.Wording.Plain.{
  IsLine, append-IsLine, scrub-IsLine, truncate-IsLine, write_nat-IsLine, IsNameLine,
  name_of-IsNameLine, channel_label-IsLine, named-IsLine,
}

-- The names and keys that lines are made of: those of the stations and of the channels.
abbrev pub HasPlainNames : Store → Type 0
HasPlainNames s =
    All (λ q. IsNameLine q.n) s.hams × All (λ c. IsLine c.cid × IsNameLine c.cn) s.channels

abbrev pub IsPlain : Output → Type 0
IsPlain (says text) = IsLine text
IsPlain (shows_channels cs) = All (λ c. IsLine c.cid × IsNameLine c.cn) cs
IsPlain (shows_title (channel cid)) = IsLine cid
IsPlain (shows_title (dm peer sid)) = IsLine peer
IsPlain (shows_posts ps) = All (λ p. IsLine p.fc) ps
IsPlain (shows_messages ms) = All (λ m. IsLine m.fc) ms
IsPlain (shows_online cs) = All IsLine cs
IsPlain (shows_conversations cs) = All (λ c. IsLine c.peer) cs
IsPlain (live_post p) = IsLine p.fc
IsPlain (live_message m) = IsLine m.fc
IsPlain _ = Unit {0}

sender_label-IsLine :
    (store : Store) (c : Callsign) → HasPlainNames store → IsLine c → IsLine (sender_label store c)
sender_label-IsLine store c p h =
    named-IsLine c (name_of (find (λ q. q.c) c store.hams)) h (name_of-IsNameLine c store.hams p.0)

-- A sender in brackets, and the text.
abbrev bracketed : Text → Text → Text
bracketed who text = codes "[" ++ (who ++ (codes "] " ++ scrub text))

bracketed-IsLine : (who text : Text) → IsLine who → IsLine (bracketed who text)
bracketed-IsLine who text h =
    append-IsLine (codes "[") (who ++ (codes "] " ++ scrub text)) (omega arith) (
      append-IsLine who (codes "] " ++ scrub text) h
        (append-IsLine (codes "] ") (scrub text) (omega arith) (scrub-IsLine text)))

module _ (mine : Callsign) (store : Store) (names : HasPlainNames store) where
  pub format_post-IsLine : (p : PostRow) → IsLine p.fc → IsLine (format_post store p)
  format_post-IsLine p h =
      bracketed-IsLine (sender_label store p.fc) p.p (sender_label-IsLine store p.fc names h)

  pub format_dm-IsLine : (m : MessageRow) → IsLine m.fc → IsLine (format_dm mine store m)
  format_dm-IsLine m h = elim (Bool-cases (text_eq m.fc mine)) [
    | inl y ↦ rw y (bracketed-IsLine (codes "me") m.m (omega arith))
    | inr n ↦
        rw n
          (bracketed-IsLine (sender_label store m.fc) m.m (sender_label-IsLine store m.fc names h))
  ]

  channel_line-IsLine :
      (i : ℕ) (c : ChannelRow) → IsLine c.cid → IsNameLine c.cn → IsLine (channel_line store i c)
  channel_line-IsLine i c h k =
      let count = write_nat (count_posts c.cid store) (codes ")") in
      let label = channel_label c.cid c.cn in
      let rest = codes ". " ++ (label ++ (codes " (" ++ count)) in
      append-IsLine (if c.subscribed then codes "*" else codes " ") (write_nat i rest)
        (star c.subscribed)
        (write_nat-IsLine i rest (
          append-IsLine (codes ". ") (label ++ (codes " (" ++ count)) (omega arith) (
            append-IsLine label (codes " (" ++ count) (channel_label-IsLine c.cid c.cn h k) (
              append-IsLine (codes " (") count (omega arith)
                (write_nat-IsLine (count_posts c.cid store) (codes ")") (omega arith))))))
    where
      star : (b : Bool) → IsLine (if b then codes "*" else codes " ")
      star true = omega arith
      star false = omega arith

  pub channel_lines-AreLines :
      (i : ℕ) (cs : List ChannelRow)
      → All (λ c. IsLine c.cid × IsNameLine c.cn) cs
      → All IsLine (channel_lines store i cs)
  channel_lines-AreLines i [] h = tt
  channel_lines-AreLines i (c ∷ cs) h =
      (channel_line-IsLine i c h.0.0 h.0.1, channel_lines-AreLines (i + 1) cs h.1)

  pub conversation_line-IsLine :
      (c : ConversationRow) → IsLine c.peer → IsLine (conversation_line c)
  conversation_line-IsLine c h =
      let preview = truncate (scrub c.last_text) 40 in
      let count = write_nat c.count (codes "): " ++ preview) in
      append-IsLine (codes "  ") (c.peer ++ (codes " (" ++ count)) (omega arith) (
        append-IsLine c.peer (codes " (" ++ count) h (
          append-IsLine (codes " (") count (omega arith) (
            write_nat-IsLine c.count (codes "): " ++ preview) (
              append-IsLine (codes "): ") preview (omega arith)
                (truncate-IsLine (scrub c.last_text) 40 (scrub-IsLine c.last_text))))))

  pub joined-IsLine : (cs : List Callsign) → All IsLine cs → IsLine (joined cs)
  joined-IsLine [] h = tt
  joined-IsLine (c ∷ []) h = h.0
  joined-IsLine (c ∷ d ∷ cs) h =
      append-IsLine c (codes ", " ++ joined (d ∷ cs)) h.0
        (append-IsLine (codes ", ") (joined (d ∷ cs)) (omega arith) (joined-IsLine (d ∷ cs) h.1))

  name_in-IsNameLine :
      (cid : Text) (cs : List ChannelRow)
      → All (λ c. IsLine c.cid × IsNameLine c.cn) cs
      → IsNameLine (name_in cid cs)
  name_in-IsNameLine cid [] h = tt
  name_in-IsNameLine cid (c ∷ cs) h = elim (Bool-cases (text_eq c.cid cid)) [
    | inl y ↦ rw y (h.0.1)
    | inr n ↦ rw n (name_in-IsNameLine cid cs h.1)
  ]

  pub title-IsLine : (v : View) → IsPlain (shows_title v) → IsLine (title store v)
  title-IsLine menu h = tt
  title-IsLine (channel cid) h =
      let label = channel_label cid (name_in cid (list_channels store)) in
      append-IsLine (codes "== ") (label ++ codes " ==") (omega arith) (
        append-IsLine label (codes " ==")
          (channel_label-IsLine cid (name_in cid (list_channels store)) h (
            name_in-IsNameLine cid (list_channels store) (
              order_by-All (λ c. IsLine c.cid × IsNameLine c.cn) (λ a b. sql_leb a.cid b.cid)
                store.channels names.1)))
          (omega arith))
  title-IsLine (dm peer sid) h =
      append-IsLine (codes "== DM ") (peer ++ codes " ==") (omega arith)
        (append-IsLine peer (codes " ==") h (omega arith))
