-- ===== src/Rf/Session/Live.antt =====
-- What the session of src/heads/rf/session.ts forwards while it is in a view.
use pdn_whatspac_client.Base.{
  subst, ◌≢◌, ◌⊎◌, inl, inr, Bool-cases, text_eq, text_eq_iff, ◌≡◌, refl, sym, ap, Bool, true,
  false, Option, none, some, List, [], ◌∷◌, Text, if◌then◌else◌,
}
use pdn_whatspac_client.Protocol.Messages.{Callsign, ChannelPost}
use pdn_whatspac_client.Store.{Store, post_row}
use pdn_whatspac_client.Store.Conversation.{conversation_id}
use pdn_whatspac_client.Rf.Session.{
  View, menu, channel, dm, Session, fresh, Command, help, menu_, channels, who, conversations, quit,
  open_, post, talk, send, subscribe, unknown, Output, live_post, live_of, set_view, opened,
  at_index, index_of_channels, parse_int, cmd_open_channel, on_command, feed_line, forward_post,
  Event, settled, line, posted, messaged, gone, step, run,
}

-- The listener that is on is that of the view, and none is on once the session is disposed of.
abbrev pub IsLive : Session → Type 0
IsLive s = s.live ≡ (if s.disposed then none else live_of s.view)

opened-IsLive :
    (store : Store) (o : Option Text) (s : Session)
    → s.disposed ≡ false
    → IsLive s
    → IsLive (opened store o s).0
unfolding set_view
opened-IsLive store none s d h = h
opened-IsLive store (some cid) s d h = sym (ap (λ b. if b then none else live_of (channel cid)) d)

on_command-IsLive :
    (mine : Callsign) (store : Store) (c : Command) (s : Session)
    → s.disposed ≡ false
    → IsLive s
    → IsLive (on_command mine store c s).0
unfolding on_command cmd_open_channel set_view
on_command-IsLive mine store help s d h = h
on_command-IsLive mine store menu_ s d h =
    sym (ap (λ b. if◌then◌else◌ {A = Option View} b none (live_of menu)) d)
on_command-IsLive mine store channels s d h = h
on_command-IsLive mine store who s d h = h
on_command-IsLive mine store conversations s d h = h
on_command-IsLive mine store quit s d h = h
on_command-IsLive mine store (open_ arg) s d h =
    let index = index_of_channels s.channel_index store in
    opened-IsLive store (at_index index (parse_int arg)) (record s { channel_index = index }) d h
on_command-IsLive mine store (post text) s d h = h
on_command-IsLive mine store (talk []) s d h = h
on_command-IsLive mine store (talk (x ∷ peer)) s d h =
    sym (ap (λ b. if b then none else live_of (dm (x ∷ peer) (conversation_id mine (x ∷ peer)))) d)
on_command-IsLive mine store (send text) s d h = h
on_command-IsLive mine store (subscribe on) s d h = h
on_command-IsLive mine store (unknown verb) s d h = h

if-IsLive :
    (b : Bool) (p q : Session × List Output)
    → IsLive p.0
    → (b ≡ false → IsLive q.0)
    → IsLive (if b then p else q).0
if-IsLive true p q h k = h
if-IsLive false p q h k = k refl

feed_line-IsLive :
    (mine : Callsign) (store : Store) (c : Command) (s : Session)
    → IsLive s
    → IsLive (feed_line mine store c s).0
unfolding feed_line
feed_line-IsLive mine store c s h =
    if-IsLive s.disposed (s, []) (on_command mine store c s) h
      (λ d. on_command-IsLive mine store c s d h)

step-IsLive : (mine : Callsign) (e : Event) (s : Session) → IsLive s → IsLive (step mine e s).0
unfolding step
step-IsLive mine (line store c) s h = feed_line-IsLive mine store c s h
step-IsLive mine (posted p) s h = h
step-IsLive mine (messaged m) s h = h
step-IsLive mine (settled request error) s h = h
step-IsLive mine gone s h = refl

-- Whatever the user and the agent do, the session listens to the traffic of the view that it is
-- in and to no other, and to none once it is disposed of.
pub run-IsLive :
    (mine : Callsign) (es : List Event) (s : Session) → IsLive s → IsLive (run mine es s).0
unfolding run
run-IsLive mine [] s h = h
run-IsLive mine (e ∷ es) s h = run-IsLive mine es (step mine e s).0 (step-IsLive mine e s h)

-- A post is forwarded in an open session whose view is the post's channel, where someone else wrote
-- it; in every other case nothing is shown.
abbrev pub Forwards : Callsign → ChannelPost → Bool → View → List Output → Type 0
Forwards mine p disposed v outputs =
    ((disposed ≡ false)
      × (v ≡ channel p.cid)
      × (p.fc ≢ mine)
      × (outputs ≡ live_post (post_row p) ∷ []))
    ⊎ (((disposed ≡ true) ⊎ (v ≢ channel p.cid) ⊎ (p.fc ≡ mine)) × (outputs ≡ []))

view-Forwards :
    (mine : Callsign) (p : ChannelPost) (v : View)
    → Forwards mine p false v (forward_post mine p (live_of v))
view-Forwards mine p menu = inr (inr (inl (λ e. cc e)), refl)
view-Forwards mine p (dm peer sid) = inr (inr (inl (λ e. cc e)), refl)
view-Forwards mine p (channel cid) = elim (Bool-cases (text_eq p.cid cid)) [
  | inr n ↦ rw n (
      inr (
        inr (
            inl (λ e.
              let same : cid ≡ p.cid = cc e in
              let y = (text_eq_iff p.cid cid).1 (sym same) in cc (y, n))),
        refl,
      ))
  | inl y ↦ elim (Bool-cases (text_eq p.fc mine)) [
    | inl own ↦ rw (y, own) (inr (inr (inr ((text_eq_iff p.fc mine).0 own)), refl))
    | inr other ↦
        rw (y, other)
          (inl (
            refl,
            ap channel (sym ((text_eq_iff p.cid cid).0 y)),
            λ e. let z = (text_eq_iff p.fc mine).1 e in cc (z, other),
            refl,
          ))
  ]
]

shown-Forwards :
    (mine : Callsign) (p : ChannelPost) (disposed : Bool) (v : View)
    → Forwards mine p disposed v (forward_post mine p (if disposed then none else live_of v))
shown-Forwards mine p true v = inr (inl refl, refl)
shown-Forwards mine p false v = view-Forwards mine p v

-- After any events on a new session, a post that comes is shown as the post's row where the session
-- is not disposed of, its view is the channel of the post, and the post's sender is not the user's
-- own callsign; and nothing is shown where the session is disposed of, or its view is another, or
-- the sender is the user's own callsign.
pub run-Forwards :
    (mine : Callsign) (es : List Event) (p : ChannelPost)
    → let s = (run mine es fresh).0 in Forwards mine p s.disposed s.view (step mine (posted p) s).1
unfolding step
run-Forwards mine es p =
    let s = (run mine es fresh).0 in
    subst (λ live. Forwards mine p s.disposed s.view (forward_post mine p live))
      (sym (run-IsLive mine es fresh refl)) (shown-Forwards mine p s.disposed s.view)
