-- ===== src/Protocol/Narrowing/RoundTrip.antt =====
-- The objects of the messages of src/protocol/messages.ts, and their narrowing.
use pdn_whatspac_client.Base.{
  ◌≡◌, refl, ap, ◌∙◌, false, Option, none, some, List, Text, All, codes, text_eq,
}
use pdn_whatspac_client.Js.Json.{Json, str, obj, Fields, field, get}
use pdn_whatspac_client.Js.Json.Members.{defined, first_of-none, get-defined}
use pdn_whatspac_client.Protocol.Messages.{
  HamName, Avatar, ChannelHeader, DirectMessage, ChannelPost, Inbound, connect_reply, user_list,
  online_list, user_connected, user_disconnected, ham_enquiry, channel_headers, channel_subscribe,
  direct_message, dm_backfill, channel_post, post_backfill, avatar, other_type,
}
use pdn_whatspac_client.Protocol.Narrowing.{
  ◌>>=◌, text, optional, list, object, user_object, ham_name, named, ham_entry, channel_header,
  message_of, post_of, avatar_of, narrow_as, narrow,
}
use pdn_whatspac_client.Protocol.Narrowing.Members.{
  user_object-user_members, given, user_members, post_members, optional-given-text,
  optional-given-number, each-items, if_number-given, post_of-post_members, ham_members, ham_json,
  header_members, message_members, avatar_members, objects, type_of, message_fields, acted_on,
  IsTyped,
}

ham_name-ham_members : (h : HamName) → ham_name (defined (ham_members h)) ≡ some h
unfolding ham_name text_eq
ham_name-ham_members h = simp (get-defined, first_of-none, optional-given-number)

ham_entry-ham_json : (o : Option HamName) → ham_entry (some (ham_json o)) ≡ some o
unfolding ham_entry
ham_entry-ham_json none = refl
ham_entry-ham_json (some h) =
    ap (λ o. named o (defined (ham_members h))) (get-defined (codes "c") (ham_members h))
    ∙ (unfold text_eq in rw (ham_name-ham_members h))

channel_header-header_members :
    (ch : ChannelHeader) → channel_header (defined (header_members ch)) ≡ some ch
unfolding channel_header text_eq
channel_header-header_members ch = simp (get-defined, first_of-none, optional-given-text)

message_of-message_members : (d : DirectMessage) → message_of (defined (message_members d)) ≡ some d
unfolding message_of text_eq
message_of-message_members d =
    simp (get-defined, first_of-none, optional-given-text, optional-given-number)

avatar_of-avatar_members : (a : Avatar) → avatar_of (defined (avatar_members a)) ≡ some a
unfolding avatar_of text_eq
avatar_of-avatar_members a =
    simp (get-defined, first_of-none, optional-given-text, optional-given-number, if_number-given)

-- What is read behind the type is what is read without it.
message_of-field : (v : Json) (fs : Fields) → message_of (field (codes "t") v fs) ≡ message_of fs
unfolding message_of get text_eq
message_of-field v fs = refl

post_of-field : (v : Json) (fs : Fields) → post_of (field (codes "t") v fs) ≡ post_of fs
unfolding post_of get text_eq
post_of-field v fs = refl

avatar_of-field : (v : Json) (fs : Fields) → avatar_of (field (codes "t") v fs) ≡ avatar_of fs
unfolding avatar_of get text_eq
avatar_of-field v fs = refl

objects-lem {ℓ} :
    {A : Type ℓ} (read : Fields → Option A) (members : A → List (Text × Option Json)) (xs : List A)
    → ((a : A) → read (defined (members a)) ≡ some a)
    → list (object read) (some (objects members xs)) ≡ some xs
objects-lem read members xs h = each-items (object read) (λ a. obj (defined (members a))) xs h

optional-objects :
    (ps : Option (List ChannelPost))
    → optional (list (object post_of)) (given (objects post_members) ps) ≡ some ps
optional-objects none = refl
optional-objects (some ps) =
    ap (λ o. o >>= λ a. some (some a)) (objects-lem post_of post_members ps post_of-post_members)

narrow_as-other :
    (t : Text) (fs : Fields)
    → All (λ k. text_eq t k ≡ false) acted_on
    → narrow_as t fs ≡ some (other_type t)
unfolding narrow_as
narrow_as-other t fs h = rw (
  h.0, h.1.0, h.1.1.0, h.1.1.1.0, h.1.1.1.1.0, h.1.1.1.1.1.0, h.1.1.1.1.1.1.0, h.1.1.1.1.1.1.1.0,
  h.1.1.1.1.1.1.1.1.0, h.1.1.1.1.1.1.1.1.1.0, h.1.1.1.1.1.1.1.1.1.1.0, h.1.1.1.1.1.1.1.1.1.1.1.0,
  h.1.1.1.1.1.1.1.1.1.1.1.1.0,
)

narrow_as-members : (m : Inbound) → IsTyped m → narrow_as (type_of m) (message_fields m) ≡ some m
unfolding narrow_as text_eq
narrow_as-members (connect_reply w) h = simp (get-defined, first_of-none, if_number-given)
narrow_as-members (user_list us) h =
    simp (get-defined, objects-lem user_object user_members us user_object-user_members)
narrow_as-members (online_list cs) h = simp (get-defined, each-items text str cs (λ s. refl))
narrow_as-members (user_connected c) h = simp get-defined
narrow_as-members (user_disconnected c) h = simp get-defined
narrow_as-members (ham_enquiry hs) h =
    simp (get-defined, each-items ham_entry ham_json hs ham_entry-ham_json)
narrow_as-members (channel_headers chs) h =
    simp (get-defined, objects-lem channel_header header_members chs channel_header-header_members)
narrow_as-members (channel_subscribe s cid) h = simp (get-defined, first_of-none, if_number-given)
narrow_as-members (direct_message d) h = simp (message_of-field, message_of-message_members)
narrow_as-members (dm_backfill ds) h =
    simp (get-defined, objects-lem message_of message_members ds message_of-message_members)
narrow_as-members (channel_post p) h = simp (post_of-field, post_of-post_members)
narrow_as-members (post_backfill ps) h = simp (get-defined, first_of-none, optional-objects ps)
narrow_as-members (avatar a) h = simp (avatar_of-field, avatar_of-avatar_members)
narrow_as-members (other_type t) h = narrow_as-other t (message_fields (other_type t)) h

-- The object of a message is narrowed to that message, where a message that `dispatch` passes over
-- has none of the types that it acts on.
pub narrow-message_fields : (m : Inbound) → IsTyped m → narrow (message_fields m) ≡ some m
unfolding narrow get text_eq
narrow-message_fields m h = narrow_as-members m h
