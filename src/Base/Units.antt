-- ===== src/Base/Units.antt =====
-- `indexOf` of a single code unit.
use Prim.Native.Nat.{ℕ}
use mathlib.Core.Path.{◌≡◌, refl, ◌∙◌}
use mathlib.Core.Bool.{true}
use mathlib.Core.Option.{none, some}
use mathlib.Core.List.{[], ◌∷◌, ◌++◌}
use native.Mathlib.Omega.{arith}
use pdn_whatspac_client.Base.Tests.{◌==◌}
use pdn_whatspac_client.Base.Lists.{length}
use pdn_whatspac_client.Base.Splits.{NotIn}
use pdn_whatspac_client.Base.Strings.{Text, starts_with, index_of}

pub starts_with-one : (x b : ℕ) (s : Text) → starts_with (x ∷ s) (b ∷ []) ≡ (x == b)
unfolding starts_with
starts_with-one x b [] = ground arith
starts_with-one x b (y ∷ s) = ground arith

pub index_of-NotIn : (b : ℕ) (v : Text) → NotIn b v → index_of v (b ∷ []) ≡ none
unfolding index_of
index_of-NotIn b [] h = refl
index_of-NotIn b (x ∷ v) h = rw (starts_with-one x b v ∙ h.0, index_of-NotIn b v h.1)

-- The unit stands behind a text without it.
pub index_of-behind :
    (b : ℕ) (v s : Text) → NotIn b v → index_of (v ++ b ∷ s) (b ∷ []) ≡ some (length v)
unfolding index_of
index_of-behind b [] s h =
    let same : (b == b) ≡ true = ground arith in rw (starts_with-one b b s ∙ same)
index_of-behind b (x ∷ v) s h =
    rw (starts_with-one x b (v ++ b ∷ s) ∙ h.0, index_of-behind b v s h.1)
