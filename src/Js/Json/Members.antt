-- ===== src/Js/Json/Members.antt =====
-- An object from its members in order, where a member may be `undefined`.
use pdn_whatspac_client.Base.{
  ◌≡◌, refl, inl, inr, Bool-cases, Option, none, some, List, [], ◌∷◌, Text, text_eq, if◌then◌else◌,
}
use pdn_whatspac_client.Js.Json.{Json, Fields, end, field, get}

-- A member that is `undefined` is dropped.
abbrev pub defined : List (Text × Option Json) → Fields
defined [] = end
defined ((k, none) ∷ rest) = defined rest
defined ((k, some v) ∷ rest) = field k v (defined rest)

abbrev pub first_of : Option Json → Option Json → Option Json
first_of none o = o
first_of (some v) o = some v

abbrev pub member : Text → List (Text × Option Json) → Option Json
member key [] = none
member key ((k, o) ∷ rest) =
    let more = member key rest in if text_eq k key then first_of o more else more

pub first_of-none : (o : Option Json) → first_of o none ≡ o
first_of-none none = refl
first_of-none (some v) = refl

-- A field is the first member of its name that is there.
pub get-defined :
    (key : Text) (ms : List (Text × Option Json)) → get key (defined ms) ≡ member key ms
unfolding get
get-defined key [] = refl
get-defined key ((k, none) ∷ ms) = elim (Bool-cases (text_eq k key)) [
  | inl y ↦ rw y (get-defined key ms)
  | inr n ↦ rw n (get-defined key ms)
]
get-defined key ((k, some v) ∷ ms) = elim (Bool-cases (text_eq k key)) [
  | inl y ↦ rw y
  | inr n ↦ rw n (get-defined key ms)
]
