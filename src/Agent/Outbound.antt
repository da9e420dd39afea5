-- ===== src/Agent/Outbound.antt =====
-- The calls of src/agent/agent.ts that send. Whether the message goes out is an argument: it does
-- not where there is no link, or where `link.send` fails, and the call then throws.
pub mod Echo
use pdn_whatspac_client.Base.{
  ℕ, ◌/◌, ◌≡◌, ◌↔◌, refl, Bool, true, false, Option, none, some, List, [], ◌∷◌, Text, codes,
  text_eq, if◌then◌else◌,
}
use pdn_whatspac_client.Js.Json.{
  Json, str, num, obj, arr, Items, nil, cons, Fields, end, field, get,
}
use pdn_whatspac_client.Js.Json.Numbers.{write_nat}
use pdn_whatspac_client.Protocol.Messages.{Callsign, DirectMessage, ChannelPost, direct_message}
use pdn_whatspac_client.Store.{Store, put_direct_message, put_post, set_channel_subscribed}
use pdn_whatspac_client.Store.Lookups.{put_direct_message_twice}
use pdn_whatspac_client.Store.Cursors.{ChannelCursor, get_connect_cursors}
use pdn_whatspac_client.Agent.Dispatch.{dispatch}

-- The identity of `AgentConfig`: `whatsPacCallsign`, `displayName` and `clientVersion`, which is a
-- decimal.
pub record Identity : Type 0 where
  pub callsign : Callsign
  pub display_name : Text
  pub version : Json

-- A call's end: the store, and the message that went out, if any.
pub record Outcome : Type 0 where
  pub store : Store
  pub sent : Option Fields

abbrev pub natural : ℕ → Json
natural n = num false n []

abbrev pub cursor_object : ChannelCursor → Json
cursor_object c = obj (
    field (codes "cid") (str c.cid) (
      field (codes "lp") (natural c.lp)
        (field (codes "le") (natural c.le) (field (codes "led") (natural c.led) end))))

abbrev pub cursor_items : List ChannelCursor → Items
cursor_items [] = nil
cursor_items (c ∷ cs) = cons (cursor_object c) (cursor_items cs)

-- `...(c.cc.length > 0 ? { cc: c.cc } : {})`.
abbrev pub cc_field : List ChannelCursor → Fields
cc_field [] = end
cc_field (c ∷ cs) = field (codes "cc") (arr (cursor_items (c ∷ cs))) end

-- `sendConnectObject`.
unfoldable pub connect_object : Identity → Store → Fields
connect_object who s =
    let c = get_connect_cursors s in
    field (codes "t") (str (codes "c")) (
      field (codes "n") (str who.display_name) (
        field (codes "c") (str who.callsign) (
          field (codes "lm") (natural c.lm) (
            field (codes "le") (natural c.le) (
              field (codes "led") (natural c.led) (
                field (codes "lhts") (natural c.lhts)
                  (field (codes "v") who.version (cc_field c.cc))))))))

abbrev pub if_sent : Bool → Fields → Option Fields
if_sent goes msg = if goes then some msg else none

-- The message of `sendDirectMessage`; the clock is read for the time and again for the id.
abbrev pub own_message : Identity → ℕ → ℕ → Callsign → Text → DirectMessage
own_message who now later tc text = record {
  fc = who.callsign;
  tc = tc;
  m = text;
  ts = some (now / 1000);
  id = some (write_nat later (45 ∷ who.callsign));
  r = none;
}

abbrev pub message_object : Identity → ℕ → ℕ → Callsign → Text → Fields
message_object who now later tc text = field (codes "t") (str (codes "m")) (
    field (codes "fc") (str who.callsign) (
      field (codes "tc") (str tc) (
        field (codes "m") (str text) (
          field (codes "ts") (natural (now / 1000))
            (field (codes "_id") (str (write_nat later (45 ∷ who.callsign))) end)))))

unfoldable pub send_direct_message : Identity → Bool → ℕ → ℕ → Callsign → Text → Store → Outcome
send_direct_message who goes now later tc text s = record {
  store = put_direct_message (own_message who now later tc text) s;
  sent = if_sent goes (message_object who now later tc text);
}

-- `postToChannel`.
abbrev pub own_post : Identity → ℕ → Text → Text → ChannelPost
own_post who now cid text = record {
  cid = cid;
  fc = who.callsign;
  p = text;
  ts = some now;
  rts = none;
  rfc = none;
  at = none;
  id = some (write_nat now (45 ∷ who.callsign));
}

unfoldable pub post_to_channel : Identity → Bool → ℕ → Text → Text → Store → Outcome
post_to_channel who goes now cid text s = record {
  store = put_post (own_post who now cid text) s;
  sent = if_sent goes (
      field (codes "t") (str (codes "cp")) (
        field (codes "cid") (str cid) (
          field (codes "fc") (str who.callsign) (
            field (codes "p") (str text) (
              field (codes "ts") (natural now)
                (field (codes "_id") (str (write_nat now (45 ∷ who.callsign))) end))))));
}

-- `cc.find((c) => c.cid === cid)?.lp ?? 0`.
unfoldable pub cursor_of : Text → List ChannelCursor → ℕ
cursor_of cid [] = 0
cursor_of cid (c ∷ cs) = let rest = cursor_of cid cs in if text_eq c.cid cid then c.lp else rest

-- `subscribeChannel` and `unsubscribeChannel`: the store is told once the message has gone out.
abbrev pub subscription_sent : Bool → Bool → Text → Fields → Store → Outcome
subscription_sent goes subscribed cid msg s =
    if goes
    then record { store = set_channel_subscribed cid subscribed s; sent = some msg }
    else record { store = s; sent = none }

unfoldable pub subscribe_channel : Bool → Text → Store → Outcome
subscribe_channel goes cid s =
    subscription_sent goes true cid
      (field (codes "t") (str (codes "cs")) (
        field (codes "s") (natural 1) (
          field (codes "cid") (str cid)
            (field (codes "lcp") (natural (cursor_of cid (get_connect_cursors s).cc)) end))))
      s

unfoldable pub unsubscribe_channel : Bool → Text → Store → Outcome
unsubscribe_channel goes cid s =
    subscription_sent goes false cid
      (field (codes "t") (str (codes "cs"))
        (field (codes "s") (natural 0) (field (codes "cid") (str cid) end)))
      s

-- The connect object carries the cursors, and `cc` exactly where a channel is subscribed.
pub connect_object-get :
    (who : Identity) (s : Store)
    → let c = get_connect_cursors s in
      let o = connect_object who s in
      (get (codes "lm") o ≡ some (natural c.lm))
      × (get (codes "lhts") o ≡ some (natural c.lhts))
      × ((get (codes "cc") o ≡ none) ↔ (c.cc ≡ []))
unfolding connect_object get text_eq
connect_object-get who s = (refl, refl, given (get_connect_cursors s).cc)
  where
    given : (cs : List ChannelCursor) → (get (codes "cc") (cc_field cs) ≡ none) ↔ (cs ≡ [])
    given [] = (λ e. refl, λ e. refl)
    given (c ∷ cs) = (λ e. absurd (cc e), λ e. absurd (cc e))
