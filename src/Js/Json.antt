-- ===== src/Js/Json.antt =====
-- JSON values. A number is an exact decimal: a sign, a whole part and the digits of a fraction.
pub mod Strings
pub mod Numbers
pub mod Writer
pub mod Parser
pub mod Printed
pub mod Members
use pdn_whatspac_client.Base.{
  ℕ, Bool, true, false, Option, none, some, List, [], ◌∷◌, Text, text_eq, if◌then◌else◌,
}

mutual
  pub data Json : Type 0 where
    null : Json
    bool : Bool → Json
    num : Bool → ℕ → List ℕ → Json
    str : Text → Json
    arr : Items → Json
    obj : Fields → Json

  pub data Items : Type 0 where
    nil : Items
    cons : Json → Items → Items

  pub data Fields : Type 0 where
    end : Fields
    field : Text → Json → Fields → Fields

-- `o[key]`, with `none` for `undefined`.
unfoldable pub get : Text → Fields → Option Json
get key end = none
get key (field k v fs) = if text_eq k key then some v else get key fs

unfoldable pub has_key : Text → Fields → Bool
has_key key end = false
has_key key (field k v fs) = if text_eq k key then true else has_key key fs
