-- ===== src/Rf/Session/Wording/OneLine.antt =====
-- What src/heads/rf/session.ts writes for a row stands on one packet line.
use mathlib.Core.List.{reverse, reverse-cons}
use pdn_whatspac_client.Base.{List, [], ◌∷◌, ◌++◌, map, Text, codes, All, All-append, length, arith}
use pdn_whatspac_client.Js.Json.Numbers.{write_nat}
use pdn_whatspac_client.Protocol.Messages.{Callsign}
use pdn_whatspac_client.Store.{Store}
use pdn_whatspac_client.Rf.Session.{
  Output, says, shows_help, shows_channels, shows_title, shows_posts, shows_messages, shows_online,
  shows_conversations, live_post, live_message, posts_to, sends_to, subscribes_to,
}
use pdn_whatspac_client.Rf.Session.Wording.{
  channel_lines, conversation_line, joined, or_else_line, counted, lines_of, format_post, format_dm,
}
use pdn_whatspac_client.Rf.Session.Wording.Plain.{IsLine, append-IsLine, write_nat-IsLine}
use pdn_whatspac_client.Rf.Session.Wording.Rows.{
  HasPlainNames, IsPlain, format_post-IsLine, format_dm-IsLine, channel_lines-AreLines,
  conversation_line-IsLine, joined-IsLine, title-IsLine,
}

module _ {ℓ κ} {A : Type ℓ} (P : A → Type κ) where
  All-reverse : (xs : List A) → All P xs → All P (reverse xs)
  All-reverse [] h = tt
  All-reverse (x ∷ xs) h =
      rw (reverse-cons x xs) (All-append P (reverse xs) (x ∷ []) (All-reverse xs h.1) (h.0, tt))

  AreLines-map :
      (f : A → Text) (xs : List A)
      → ((a : A) → P a → IsLine (f a))
      → All P xs
      → All IsLine (map f xs)
  AreLines-map f [] k h = tt
  AreLines-map f (x ∷ xs) k h = (k x h.0, AreLines-map f xs k h.1)

or_else_line-AreLines :
    (line : Text) (ls : List Text) → IsLine line → All IsLine ls → All IsLine (or_else_line line ls)
or_else_line-AreLines line [] h k = (h, tt)
or_else_line-AreLines line (l ∷ ls) h k = k

counted-AreLines {ℓ} :
    {A : Type ℓ} (xs : List A) (nothing before behind : Text) (rows : List Text)
    → IsLine nothing
    → IsLine before
    → IsLine behind
    → All IsLine rows
    → All IsLine (counted xs nothing before behind rows)
counted-AreLines [] nothing before behind rows n b e r = (n, tt)
counted-AreLines (x ∷ xs) nothing before behind rows n b e r =
    let count = length (x ∷ xs) in
    (append-IsLine before (write_nat count behind) b (write_nat-IsLine count behind e), r)

-- Where no callsign and no name of a station or a channel holds a line feed, each line that an
-- output is written as is one line, whatever the texts of the messages and posts hold.
pub lines_of-AreLines :
    (mine : Callsign) (store : Store) (o : Output)
    → HasPlainNames store
    → IsPlain o
    → All IsLine (lines_of mine store o)
unfolding lines_of
lines_of-AreLines mine store (says text) names h = (h, tt)
lines_of-AreLines mine store shows_help names h = omega arith
lines_of-AreLines mine store (shows_channels cs) names h =
    counted-AreLines cs (codes "No channels yet.") (codes "Channels (") (codes ") — O <n> to open:")
      (channel_lines store 1 cs) (omega arith) (omega arith) (omega arith)
      (channel_lines-AreLines mine store names 1 cs h)
lines_of-AreLines mine store (shows_title v) names h = (title-IsLine mine store names v h, tt)
lines_of-AreLines mine store (shows_posts ps) names h =
    or_else_line-AreLines (codes "(no posts)") (map (format_post store) (reverse ps)) (omega arith)
      (AreLines-map (λ p. IsLine p.fc) (format_post store) (reverse ps)
        (format_post-IsLine mine store names) (All-reverse (λ p. IsLine p.fc) ps h))
lines_of-AreLines mine store (shows_messages ms) names h =
    or_else_line-AreLines (codes "(no messages)") (map (format_dm mine store) (reverse ms))
      (omega arith)
      (AreLines-map (λ m. IsLine m.fc) (format_dm mine store) (reverse ms)
        (format_dm-IsLine mine store names) (All-reverse (λ m. IsLine m.fc) ms h))
lines_of-AreLines mine store (shows_online []) names h = (omega arith, tt)
lines_of-AreLines mine store (shows_online (c ∷ cs)) names h =
    let online = codes "): " ++ joined (c ∷ cs) in
    let count = write_nat (length (c ∷ cs)) online in
    (
      append-IsLine (codes "Online (") count (omega arith) (
          write_nat-IsLine (length (c ∷ cs)) online (
            append-IsLine (codes "): ") (joined (c ∷ cs)) (omega arith)
              (joined-IsLine mine store names (c ∷ cs) h))),
      tt,
    )
lines_of-AreLines mine store (shows_conversations cs) names h =
    counted-AreLines cs (codes "No conversations. T <call> to start one.") (codes "DMs (")
      (codes ") — T <call> to open:") (map conversation_line cs) (omega arith) (omega arith)
      (omega arith)
      (AreLines-map (λ c. IsLine c.peer) conversation_line cs
        (conversation_line-IsLine mine store names) h)
lines_of-AreLines mine store (live_post p) names h = (
  append-IsLine (codes ">> ") (format_post store p) (omega arith)
      (format_post-IsLine mine store names p h),
  tt,
)
lines_of-AreLines mine store (live_message m) names h = (
  append-IsLine (codes ">> ") (format_dm mine store m) (omega arith)
      (format_dm-IsLine mine store names m h),
  tt,
)
lines_of-AreLines mine store (posts_to cid text) names h = tt
lines_of-AreLines mine store (sends_to peer text) names h = tt
lines_of-AreLines mine store (subscribes_to on cid) names h = tt
