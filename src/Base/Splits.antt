-- ===== src/Base/Splits.antt =====
-- A byte stream cut at a separator: what stands between separators, and what is left behind the
-- last.
use Prim.Native.Nat.{ℕ}
use mathlib.Core.Path.{◌≡◌, refl, sym, ap, ◌∙◌}
use mathlib.Core.Bool.{true, false}
use mathlib.Core.Logic.{inl, inr}
use mathlib.Core.List.{List, [], ◌∷◌, ◌++◌, append-nil, append_assoc}
use native.Mathlib.Omega.{arith}
use pdn_whatspac_client.Base.Tests.{◌==◌, if◌then◌else◌, Bool-cases}
use pdn_whatspac_client.Base.Lists.{All, All-append}

-- The pieces of `cur ++ s`, where `cur` is read already.
unfoldable pub split : ℕ → List ℕ → List ℕ → List (List ℕ) × List ℕ
split sep cur [] = ([], cur)
split sep cur (b ∷ s) =
    let (ps, tail) = split sep [] s in
    let on = split sep (cur ++ b ∷ []) s in if b == sep then (cur ∷ ps, tail) else on

abbrev pub NotIn : ℕ → List ℕ → Type 0
NotIn sep = All (λ b. (b == sep) ≡ false)

module _ (sep : ℕ) where
  pub split-here :
      (cur s : List ℕ) (b : ℕ)
      → (b == sep) ≡ true
      → split sep cur (b ∷ s) ≡ (cur ∷ (split sep [] s).0, (split sep [] s).1)
  unfolding split
  split-here cur s b h = rw h

  pub split-on :
      (cur s : List ℕ) (b : ℕ)
      → (b == sep) ≡ false
      → split sep cur (b ∷ s) ≡ split sep (cur ++ b ∷ []) s
  unfolding split
  split-on cur s b h = rw h

  pub split-append :
      (a b cur : List ℕ)
      → split sep cur (a ++ b) ≡ (
        (split sep cur a).0 ++ (split sep (split sep cur a).1 b).0,
        (split sep (split sep cur a).1 b).1,
      )
  split-append [] b cur = unfold split in refl
  split-append (x ∷ a) b cur = elim (Bool-cases (x == sep)) [
    | inl h ↦ rw (split-here cur (a ++ b) x h, split-here cur a x h) (rw (split-append a b []))
    | inr h ↦ rw (split-on cur (a ++ b) x h, split-on cur a x h) (split-append a b (cur ++ x ∷ []))
  ]

  pub split-NotIn : (s cur : List ℕ) → NotIn sep s → split sep cur s ≡ ([], cur ++ s)
  split-NotIn [] cur h = unfold split in rw append-nil
  split-NotIn (x ∷ s) cur h =
      split-on cur s x h.0 ∙ split-NotIn s (cur ++ x ∷ []) h.1 ∙ rw append_assoc

  -- The tail never holds the separator.
  pub tail-NotIn : (s cur : List ℕ) → NotIn sep cur → NotIn sep (split sep cur s).1
  tail-NotIn [] cur h = unfold split in h
  tail-NotIn (x ∷ s) cur h = elim (Bool-cases (x == sep)) [
    | inl e ↦ rw (split-here cur s x e) (tail-NotIn s [] tt)
    | inr e ↦
        rw (split-on cur s x e) (
          tail-NotIn s (cur ++ x ∷ [])
            (All-append (λ b. (b == sep) ≡ false) cur (x ∷ []) h (e, tt)))
  ]

  -- Nor does a piece.
  pub pieces-NotIn : (s cur : List ℕ) → NotIn sep cur → All (NotIn sep) (split sep cur s).0
  pieces-NotIn [] cur h = unfold split in tt
  pieces-NotIn (x ∷ s) cur h = elim (Bool-cases (x == sep)) [
    | inl e ↦ rw (split-here cur s x e) (h, pieces-NotIn s [] tt)
    | inr e ↦ rw (split-on cur s x e) (
        pieces-NotIn s (cur ++ x ∷ [])
          (All-append (λ b. (b == sep) ≡ false) cur (x ∷ []) h (e, tt)))
  ]

  -- One piece, its separator, and the rest.
  pub split-piece :
      (p s : List ℕ)
      → NotIn sep p
      → split sep [] (p ++ sep ∷ s) ≡ (p ∷ (split sep [] s).0, (split sep [] s).1)
  split-piece p s h =
      split-append p (sep ∷ s) [] ∙ rw (split-NotIn p [] h) (rw (split-here p s sep (ground arith)))

  -- The tail ends what was read.
  pub tail-suffix : (s cur : List ℕ) → (pre : List ℕ) × (cur ++ s ≡ pre ++ (split sep cur s).1)
  tail-suffix [] cur = unfold split in ([], append-nil cur)
  tail-suffix (x ∷ s) cur = elim (Bool-cases (x == sep)) [
    | inl e ↦
        let (pre, q) = tail-suffix s [] in
        (cur ++ x ∷ pre, rw (split-here cur s x e) (rw append_assoc (ap (λ t. cur ++ x ∷ t) q)))
    | inr e ↦
        let (pre, q) = tail-suffix s (cur ++ x ∷ []) in
        (pre, rw (split-on cur s x e) (sym (append_assoc cur (x ∷ []) s) ∙ q))
  ]
