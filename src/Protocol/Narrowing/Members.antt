-- ===== src/Protocol/Narrowing/Members.antt =====
-- The objects of the messages of src/protocol/messages.ts.
use pdn_whatspac_client.Base.{
  ℕ, ◌≡◌, refl, false, Option, none, some, List, [], ◌∷◌, Text, All, codes, text_eq,
}
use pdn_whatspac_client.Js.Json.{Json, null, str, num, arr, obj, Items, nil, cons, Fields}
use pdn_whatspac_client.Js.Json.Members.{defined, first_of-none, get-defined}
use pdn_whatspac_client.Protocol.Messages.{
  UserObject, HamName, Avatar, ChannelHeader, DirectMessage, ChannelPost, Inbound, connect_reply,
  user_list, online_list, user_connected, user_disconnected, ham_enquiry, channel_headers,
  channel_subscribe, direct_message, dm_backfill, channel_post, post_backfill, avatar, other_type,
}
use pdn_whatspac_client.Protocol.Narrowing.{
  Reader, text, natural, optional, if_number, each, list, user_object, post_of,
}

-- The value of a member that may be missing.
abbrev pub given {ℓ} : {A : Type ℓ} → (A → Json) → Option A → Option Json
given write none = none
given write (some a) = some (write a)

abbrev pub number : ℕ → Json
number n = num false n []

abbrev pub items {ℓ} : {A : Type ℓ} → (A → Json) → List A → Items
items write [] = nil
items write (a ∷ as') = cons (write a) (items write as')

abbrev pub user_members : UserObject → List (Text × Option Json)
user_members u =
    (codes "tc", some (str u.tc))
    ∷ (codes "n", given str u.n)
    ∷ (codes "ls", given number u.ls)
    ∷ (codes "us", given number u.us)
    ∷ []

abbrev pub post_members : ChannelPost → List (Text × Option Json)
post_members p =
    (codes "cid", some (str p.cid))
    ∷ (codes "fc", some (str p.fc))
    ∷ (codes "p", some (str p.p))
    ∷ (codes "ts", given number p.ts)
    ∷ (codes "rts", given number p.rts)
    ∷ (codes "rfc", given str p.rfc)
    ∷ (codes "at", given (λ cs. arr (items str cs)) p.at)
    ∷ (codes "_id", given str p.id)
    ∷ []

pub optional-given-text : (o : Option Text) → optional text (given str o) ≡ some o
optional-given-text none = refl
optional-given-text (some s) = refl

pub optional-given-number : (o : Option ℕ) → optional natural (given number o) ≡ some o
optional-given-number none = refl
optional-given-number (some n) = refl

pub user_object-user_members : (u : UserObject) → user_object (defined (user_members u)) ≡ some u
unfolding user_object text_eq
user_object-user_members u =
    simp (get-defined, first_of-none, optional-given-text, optional-given-number)

module _ {ℓ} {A : Type ℓ} where
  pub each-items :
      (read : Reader A) (write : A → Json) (xs : List A)
      → ((a : A) → read (some (write a)) ≡ some a)
      → each read (items write xs) ≡ some xs
  each-items read write [] h = refl
  each-items read write (a ∷ xs) h = rw (h a, each-items read write xs h)

optional-given-texts :
    (o : Option (List Text)) → optional (list text) (given (λ cs. arr (items str cs)) o) ≡ some o
optional-given-texts none = refl
optional-given-texts (some cs) = rw (each-items text str cs (λ s. refl))

pub if_number-given : (o : Option ℕ) → if_number (given number o) ≡ some o
if_number-given none = refl
if_number-given (some n) = refl

pub post_of-post_members : (p : ChannelPost) → post_of (defined (post_members p)) ≡ some p
unfolding post_of text_eq
post_of-post_members p =
    simp
      (get-defined, first_of-none, optional-given-text, optional-given-number, optional-given-texts)

abbrev pub ham_members : HamName → List (Text × Option Json)
ham_members h =
    (codes "c", some (str h.c)) ∷ (codes "n", some (str h.n)) ∷ (codes "ts", given number h.ts) ∷ []

-- An entry without a name is written as `null`.
abbrev pub ham_json : Option HamName → Json
ham_json none = null
ham_json (some h) = obj (defined (ham_members h))

abbrev pub header_members : ChannelHeader → List (Text × Option Json)
header_members ch = (codes "cid", some (str ch.cid)) ∷ (codes "cn", given str ch.cn) ∷ []

abbrev pub message_members : DirectMessage → List (Text × Option Json)
message_members d =
    (codes "fc", some (str d.fc))
    ∷ (codes "tc", some (str d.tc))
    ∷ (codes "m", some (str d.m))
    ∷ (codes "ts", given number d.ts)
    ∷ (codes "_id", given str d.id)
    ∷ (codes "r", given str d.r)
    ∷ []

abbrev pub avatar_members : Avatar → List (Text × Option Json)
avatar_members a =
    (codes "c", given str a.c)
    ∷ (codes "a", given str a.a)
    ∷ (codes "ts", given number a.ts)
    ∷ (codes "ac", given number a.ac)
    ∷ []

abbrev pub objects {ℓ} : {A : Type ℓ} → (A → List (Text × Option Json)) → List A → Json
objects members xs = arr (items (λ a. obj (defined (members a))) xs)

-- The type of a message, and its other members.
abbrev pub type_of : Inbound → Text
type_of (connect_reply w) = codes "c"
type_of (user_list us) = codes "u"
type_of (online_list cs) = codes "o"
type_of (user_connected c) = codes "uc"
type_of (user_disconnected c) = codes "ud"
type_of (ham_enquiry hs) = codes "he"
type_of (channel_headers chs) = codes "pch"
type_of (channel_subscribe s cid) = codes "cs"
type_of (direct_message d) = codes "m"
type_of (dm_backfill ds) = codes "mb"
type_of (channel_post p) = codes "cp"
type_of (post_backfill ps) = codes "cpb"
type_of (avatar a) = codes "a"
type_of (other_type t) = t

abbrev pub members_of : Inbound → List (Text × Option Json)
members_of (connect_reply w) = (codes "w", given number w) ∷ []
members_of (user_list us) = (codes "u", some (objects user_members us)) ∷ []
members_of (online_list cs) = (codes "o", some (arr (items str cs))) ∷ []
members_of (user_connected c) = (codes "c", some (str c)) ∷ []
members_of (user_disconnected c) = (codes "c", some (str c)) ∷ []
members_of (ham_enquiry hs) = (codes "h", some (arr (items ham_json hs))) ∷ []
members_of (channel_headers chs) = (codes "ch", some (objects header_members chs)) ∷ []
members_of (channel_subscribe s cid) =
    (codes "s", given number s) ∷ (codes "cid", some (str cid)) ∷ []
members_of (direct_message d) = message_members d
members_of (dm_backfill ds) = (codes "m", some (objects message_members ds)) ∷ []
members_of (channel_post p) = post_members p
members_of (post_backfill ps) = (codes "p", given (objects post_members) ps) ∷ []
members_of (avatar a) = avatar_members a
members_of (other_type t) = []

abbrev pub message_fields : Inbound → Fields
message_fields m = defined ((codes "t", some (str (type_of m))) ∷ members_of m)

-- A type that `dispatch` passes over is none of those that it acts on.
abbrev pub acted_on : List Text
acted_on =
    codes "c"
    ∷ codes "u"
    ∷ codes "o"
    ∷ codes "uc"
    ∷ codes "ud"
    ∷ codes "he"
    ∷ codes "pch"
    ∷ codes "cs"
    ∷ codes "m"
    ∷ codes "mb"
    ∷ codes "cp"
    ∷ codes "cpb"
    ∷ codes "a"
    ∷ []

abbrev pub IsTyped : Inbound → Type 0
IsTyped (other_type t) = All (λ k. text_eq t k ≡ false) acted_on
IsTyped _ = Unit {0}
