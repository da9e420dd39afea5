-- ===== src/Util/Log.antt =====
-- `createLogger` of src/util/log.ts. A minimum that is no level, which the configuration lets through,
-- is `none`; the JSON of `meta` is given as text.
use pdn_whatspac_client.Base.{
  ℕ, ◌≡◌, ◌≢◌, ◌≤◌, refl, inl, inr, Bool-cases, Bool, false, Option, none, some, List, [], ◌∷◌,
  ◌++◌, Text, codes, ltb, if◌then◌else◌, arith,
}

pub data LogLevel : Type 0 where
  debug info warn error : LogLevel

-- `ORDER`.
abbrev pub order : LogLevel → ℕ
order debug = 0
order info = 1
order warn = 2
order error = 3

-- `level.toUpperCase().padEnd(5)`.
abbrev pub label : LogLevel → Text
label debug = codes "DEBUG"
label info = codes "INFO "
label warn = codes "WARN "
label error = codes "ERROR"

-- `ORDER[level] < min`: no number is below `undefined`.
abbrev pub is_below : LogLevel → Option LogLevel → Bool
is_below level none = false
is_below level (some min) = ltb (order level) (order min)

abbrev pub with_meta : Text → Option Text → Text
with_meta line none = line ++ 10 ∷ []
with_meta line (some meta) = line ++ (32 ∷ (meta ++ 10 ∷ []))

-- `emit`: what is written to stderr.
unfoldable pub emit : Option LogLevel → LogLevel → Text → Option Text → List Text
emit min level msg meta =
    if is_below level min then [] else with_meta (label level ++ (32 ∷ msg)) meta ∷ []

-- A level that is written under a minimum is written under each lower minimum, and without one.
pub emit-lower :
    (low min level : LogLevel) (msg : Text) (meta : Option Text)
    → order low ≤ order min
    → emit (some min) level msg meta ≢ []
    → (emit (some low) level msg meta ≡ emit (some min) level msg meta)
      × (emit none level msg meta ≡ emit (some min) level msg meta)
unfolding emit
emit-lower low min level msg meta h k = elim (Bool-cases (ltb (order level) (order min))) [
  | inl y ↦ absurd (k (rw y))
  | inr n ↦
      let above : ltb (order level) (order low) ≡ false = ground (arith, n) in
      rw (n, above) (refl, refl)
]
