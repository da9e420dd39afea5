-- ===== src/Web/App.antt =====
-- The routes of src/heads/web/app.ts that change something, behind their gate. The package hono,
-- which finds the route and reads the body, is not modelled: a request comes as its route, its
-- `X-Pdn-Scope` header and its JSON body, `none` where the body is no JSON. Whether the agent's
-- call succeeds is an argument.
pub mod Gate
use pdn_whatspac_client.Base.{
  ℕ, ◌≡◌, refl, ap, Bool, true, false, not, ◌&&◌, ◌||◌, Option, none, some, List, [], ◌∷◌, Text,
  codes, text_eq, if◌then◌else◌,
}
use pdn_whatspac_client.Js.Json.{Json, null, bool, str, obj, get}
use pdn_whatspac_client.Js.Trim.{is_blank}
use pdn_whatspac_client.Protocol.Messages.{Callsign}

-- `mayMutate`.
unfoldable pub may_mutate : Option Text → Bool
may_mutate none = true
may_mutate (some []) = true
may_mutate (some (x ∷ scope)) =
    text_eq (x ∷ scope) (codes "operate") || text_eq (x ∷ scope) (codes "admin")

pub data Route : Type 0 where
  get_ : Route
  post_posts : Text → Route
  post_subscription : Text → Route
  post_dm : Route

-- What a route asks of the agent.
pub data Call : Type 0 where
  post_to_channel : Text → Text → Call
  subscribe_channel unsubscribe_channel : Text → Call
  send_direct_message : Callsign → Text → Call

pub record Response : Type 0 where
  pub status : ℕ
  pub calls : List Call

abbrev pub answer : ℕ → Response
answer status = record { status = status; calls = [] }

-- The answer after `await` of a call: an error of the agent's is a 500.
abbrev pub awaited : Bool → Call → ℕ → Response
awaited goes call status = record { status = if goes then status else 500; calls = call ∷ [] }

-- A property of the body, where reading it does not throw: it does on `null`.
unfoldable pub property : Text → Json → Option (Option Json)
property key null = none
property key (obj fs) = some (get key fs)
property key _ = some none

-- The body that a failed parse is replaced by has no property.
abbrev pub property_of : Text → Option Json → Option (Option Json)
property_of key none = some none
property_of key (some v) = property key v

abbrev pub text_of : Option Json → Text
text_of (some (str s)) = s
text_of _ = []

abbrev pub on_posts : Bool → Text → Option (Option Json) → Response
on_posts goes cid none = answer 500
on_posts goes cid (some text) =
    if is_blank (text_of text)
    then answer 400
    else awaited goes (post_to_channel cid (text_of text)) 201

abbrev pub on_subscription : Bool → Text → Option (Option Json) → Response
on_subscription goes cid none = answer 500
on_subscription goes cid (some (some (bool true))) = awaited goes (subscribe_channel cid) 200
on_subscription goes cid (some (some (bool false))) = awaited goes (unsubscribe_channel cid) 200
on_subscription goes cid (some _) = answer 400

abbrev pub on_dm : Bool → Option (Option Json) → Option (Option Json) → Response
on_dm goes (some to) (some text) =
    if is_blank (text_of to) || is_blank (text_of text)
    then answer 400
    else awaited goes (send_direct_message (text_of to) (text_of text)) 201
on_dm goes _ _ = answer 500

abbrev pub routed : Bool → Route → Option Json → Response
routed goes get_ body = answer 200
routed goes (post_posts cid) body = on_posts goes cid (property_of (codes "text") body)
routed goes (post_subscription cid) body =
    on_subscription goes cid (property_of (codes "subscribed") body)
routed goes post_dm body =
    on_dm goes (property_of (codes "to") body) (property_of (codes "text") body)

abbrev pub is_post : Route → Bool
is_post get_ = false
is_post _ = true

-- The gate, and the route behind it.
unfoldable pub handle : Bool → Option Text → Route → Option Json → Response
handle goes scope route body =
    if is_post route && not (may_mutate scope) then answer 403 else routed goes route body
