-- ===== src/Web/App/Gate.antt =====
-- The gate of src/heads/web/app.ts: which requests it turns away.
use pdn_whatspac_client.Base.{◌≡◌, ◌≢◌, ◌⊎◌, Option, none, some, [], Text, codes}
use pdn_whatspac_client.Js.Json.{Json}

-- A scope that is sent and is none of those that may change something.
abbrev pub IsBelow : Option Text → Type 0
IsBelow none = ⊥
IsBelow (some s) = (s ≢ []) × (s ≢ codes "operate") × (s ≢ codes "admin")

-- No scope, as on the loopback, or one of those.
abbrev pub IsAllowed : Option Text → Type 0
IsAllowed scope =
    (scope ≡ none)
    ⊎ (scope ≡ some [])
    ⊎ (scope ≡ some (codes "operate"))
    ⊎ (scope ≡ some (codes "admin"))
