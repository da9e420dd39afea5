-- ===== src/Protocol/Narrowing.antt =====
-- The narrowing of a parsed object to a typed message: `isType` of src/protocol/messages.ts, as
-- `dispatch` of src/agent/agent.ts uses it, with the shapes of the interfaces. A value of another
-- shape is `none`: the interfaces rule it out, and nothing at run time does.
pub mod RoundTrip
pub mod Members
use mathlib.Core.Option
use pdn_whatspac_client.Base.{
  ℕ, Bool, true, false, Option, none, some, List, [], ◌∷◌, Text, codes, text_eq, if◌then◌else◌,
}
use pdn_whatspac_client.Js.Json.{
  Json, null, bool, num, str, arr, obj, Items, nil, cons, Fields, end, field, get,
}
use pdn_whatspac_client.Protocol.Messages.{
  UserObject, HamName, Avatar, ChannelHeader, DirectMessage, ChannelPost, Inbound, connect_reply,
  user_list, online_list, user_connected, user_disconnected, ham_enquiry, channel_headers,
  channel_subscribe, direct_message, dm_backfill, channel_post, post_backfill, avatar, other_type,
}

infixl 5 ◌>>=◌
abbrev pub ◌>>=◌ {ℓ κ} : {A : Type ℓ} {B : Type κ} → Option A → (A → Option B) → Option B
none >>= f = none
(some a) >>= f = f a

abbrev pub Reader {ℓ} : Type ℓ → Type ℓ
Reader A = Option Json → Option A

-- `x: string` and `x: number`.
abbrev pub text : Reader Text
text (some (str s)) = some s
text _ = none

abbrev pub natural : Reader ℕ
natural (some (num false n [])) = some n
natural _ = none

-- `x?: …`.
abbrev pub optional {ℓ} : {A : Type ℓ} → Reader A → Reader (Option A)
optional read none = some none
optional read (some v) = read (some v) >>= λ a. some (some a)

-- What the test `typeof x === "number"` tells apart.
abbrev pub if_number : Reader (Option ℕ)
if_number (some (num negative n fraction)) =
    natural (some (num negative n fraction)) >>= λ a. some (some a)
if_number _ = some none

-- `x: …[]`.
abbrev pub each {ℓ} : {A : Type ℓ} → Reader A → Items → Option (List A)
each read nil = some []
each read (cons v vs) = do a ← read (some v); rest ← each read vs; some (a ∷ rest)

abbrev pub list {ℓ} : {A : Type ℓ} → Reader A → Reader (List A)
list read (some (arr vs)) = each read vs
list read _ = none

abbrev pub object {ℓ} : {A : Type ℓ} → (Fields → Option A) → Reader A
object read (some (obj fs)) = read fs
object read _ = none

unfoldable pub user_object : Fields → Option UserObject
user_object fs = do
  tc ← text (get (codes "tc") fs)
  n ← optional text (get (codes "n") fs)
  ls ← optional natural (get (codes "ls") fs)
  us ← optional natural (get (codes "us") fs)
  some (record { tc = tc; n = n; ls = ls; us = us })

unfoldable pub ham_name : Fields → Option HamName
ham_name fs = do
  c ← text (get (codes "c") fs)
  n ← text (get (codes "n") fs)
  ts ← optional natural (get (codes "ts") fs)
  some (record { c = c; n = n; ts = ts })

-- An entry of `he`: `typeof h === "object" && h && "c" in h`. An array has no `c`.
abbrev pub named : Option Json → Fields → Option (Option HamName)
named none fs = some none
named (some v) fs = ham_name fs >>= λ h. some (some h)

unfoldable pub ham_entry : Reader (Option HamName)
ham_entry (some (obj fs)) = named (get (codes "c") fs) fs
ham_entry _ = some none

unfoldable pub channel_header : Fields → Option ChannelHeader
channel_header fs = do
  cid ← text (get (codes "cid") fs)
  cn ← optional text (get (codes "cn") fs)
  some (record { cid = cid; cn = cn })

unfoldable pub message_of : Fields → Option DirectMessage
message_of fs = do
  fc ← text (get (codes "fc") fs)
  tc ← text (get (codes "tc") fs)
  m ← text (get (codes "m") fs)
  ts ← optional natural (get (codes "ts") fs)
  id ← optional text (get (codes "_id") fs)
  r ← optional text (get (codes "r") fs)
  some (record { fc = fc; tc = tc; m = m; ts = ts; id = id; r = r })

unfoldable pub post_of : Fields → Option ChannelPost
post_of fs = do
  cid ← text (get (codes "cid") fs)
  fc ← text (get (codes "fc") fs)
  p ← text (get (codes "p") fs)
  ts ← optional natural (get (codes "ts") fs)
  rts ← optional natural (get (codes "rts") fs)
  rfc ← optional text (get (codes "rfc") fs)
  at ← optional (list text) (get (codes "at") fs)
  id ← optional text (get (codes "_id") fs)
  some (record { cid = cid; fc = fc; p = p; ts = ts; rts = rts; rfc = rfc; at = at; id = id })

unfoldable pub avatar_of : Fields → Option Avatar
avatar_of fs = do
  c ← optional text (get (codes "c") fs)
  a ← optional text (get (codes "a") fs)
  ts ← optional natural (get (codes "ts") fs)
  ac ← if_number (get (codes "ac") fs)
  some (record { c = c; a = a; ts = ts; ac = ac })

-- The message of a type with these fields; the order is that of the tests.
unfoldable pub narrow_as : Text → Fields → Option Inbound
narrow_as t fs =
    if text_eq t (codes "c")
    then Option.map connect_reply (if_number (get (codes "w") fs))
    else if text_eq t (codes "u")
    then Option.map user_list (list (object user_object) (get (codes "u") fs))
    else if text_eq t (codes "o")
    then Option.map online_list (list text (get (codes "o") fs))
    else if text_eq t (codes "uc")
    then Option.map user_connected (text (get (codes "c") fs))
    else if text_eq t (codes "ud")
    then Option.map user_disconnected (text (get (codes "c") fs))
    else if text_eq t (codes "he")
    then Option.map ham_enquiry (list ham_entry (get (codes "h") fs))
    else if text_eq t (codes "pch")
    then Option.map channel_headers (list (object channel_header) (get (codes "ch") fs))
    else if text_eq t (codes "cs")
    then (do
      s ← if_number (get (codes "s") fs)
      cid ← text (get (codes "cid") fs)
      some (channel_subscribe s cid))
    else if text_eq t (codes "m")
    then Option.map direct_message (message_of fs)
    else if text_eq t (codes "mb")
    then Option.map dm_backfill (list (object message_of) (get (codes "m") fs))
    else if text_eq t (codes "cp")
    then Option.map channel_post (post_of fs)
    else if text_eq t (codes "cpb")
    then Option.map post_backfill (optional (list (object post_of)) (get (codes "p") fs))
    else if text_eq t (codes "a")
    then Option.map avatar (avatar_of fs)
    else some (other_type t)

unfoldable pub narrow : Fields → Option Inbound
narrow fs = do t ← text (get (codes "t") fs); narrow_as t fs
