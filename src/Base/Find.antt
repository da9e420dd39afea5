-- ===== src/Base/Find.antt =====
-- Where `indexOf` finds a text.
use Prim.Native.Nat.{ℕ, suc, ◌+◌, ◌≤◌}
use mathlib.Core.Path.{◌≡◌, refl, ap}
use mathlib.Core.Logic.{◌⊎◌, inl, inr}
use mathlib.Core.Bool.{true, false}
use mathlib.Core.Option.{none, some}
use mathlib.Core.List.{[], ◌∷◌, ◌++◌}
use native.Mathlib.Omega.{arith}
use pdn_whatspac_client.Base.Tests.{Bool-cases, Option-cases}
use pdn_whatspac_client.Base.Lists.{length, take, drop, length-append}
use pdn_whatspac_client.Base.Strings.{Text, starts_with, index_of}

starts_with-nil : (w : Text) → starts_with w [] ≡ true
unfolding starts_with
starts_with-nil [] = refl
starts_with-nil (x ∷ w) = refl

pub starts_with-append : (s t u : Text) → starts_with s t ≡ true → starts_with (s ++ u) t ≡ true
unfolding starts_with
starts_with-append s [] u h = starts_with-nil (s ++ u)
starts_with-append [] (y ∷ t) u h = cc
starts_with-append (x ∷ s) (y ∷ t) u h = ground (arith, starts_with-append s t u)

-- A text found stands there: what comes before it, itself, and what is left.
pub starts_with-split : (s t : Text) → starts_with s t ≡ true → s ≡ t ++ drop (length t) s
unfolding starts_with
starts_with-split s [] h = refl
starts_with-split [] (y ∷ t) h = cc
starts_with-split (x ∷ s) (y ∷ t) h = ground (arith, starts_with-split s t)

pub starts_with_self : (t s : Text) → starts_with (t ++ s) t ≡ true
unfolding starts_with
starts_with_self [] [] = refl
starts_with_self [] (x ∷ s) = refl
starts_with_self (x ∷ t) s = ground (arith, starts_with_self t s)

index_of-starts : (s t : Text) → starts_with s t ≡ true → index_of s t ≡ some 0
unfolding index_of
index_of-starts [] t h = rw h
index_of-starts (x ∷ s) t h = rw h

index_of-later :
    (x k : ℕ) (s t : Text)
    → starts_with (x ∷ s) t ≡ false
    → index_of s t ≡ some k
    → index_of (x ∷ s) t ≡ some (suc k)
unfolding index_of
index_of-later x k s t n h = rw (n, h)

index_of-nil : (t : Text) (k : ℕ) → index_of [] t ≡ some k → (t ≡ []) × (k ≡ 0)
unfolding index_of
index_of-nil [] k h = (refl, ground arith)
index_of-nil (y ∷ t) k h = cc

index_of-never :
    (x : ℕ) (s t : Text)
    → starts_with (x ∷ s) t ≡ false
    → index_of s t ≡ none
    → index_of (x ∷ s) t ≡ none
unfolding index_of
index_of-never x s t n h = rw (n, h)

-- The first place, or a later one.
index_of-cons :
    (x : ℕ) (s t : Text) (k : ℕ)
    → index_of (x ∷ s) t ≡ some k
    → ((starts_with (x ∷ s) t ≡ true) × (k ≡ 0))
      ⊎ ((j : ℕ) × (starts_with (x ∷ s) t ≡ false) × (k ≡ suc j) × (index_of s t ≡ some j))
index_of-cons x s t k h = elim (Bool-cases (starts_with (x ∷ s) t)) [
  | inl y ↦ inl (y, cc (index_of-starts (x ∷ s) t y, h))
  | inr n ↦ elim (Option-cases (index_of s t)) [
    | inl z ↦ absurd (cc (index_of-never x s t n z, h))
    | inr (j, e) ↦ inr (j, n, cc (index_of-later x j s t n e, h), e)
  ]
]

starts_with-cut :
    (s t u : Text) → starts_with (s ++ u) t ≡ true → length t ≤ length s → starts_with s t ≡ true
unfolding starts_with
starts_with-cut s [] u h l = starts_with-nil s
starts_with-cut [] (y ∷ t) u h l = absurd (omega arith)
starts_with-cut (x ∷ s) (y ∷ t) u h l = ground (arith, starts_with-cut s t u)

length-starts_with : (s t : Text) → starts_with s t ≡ true → length t ≤ length s
length-starts_with s t y =
    omega (arith, ap length (starts_with-split s t y), length-append t (drop (length t) s))

-- What was found lies within the text.
pub index_of-fits : (s t : Text) (k : ℕ) → index_of s t ≡ some k → k + length t ≤ length s
index_of-fits [] t k h = let (a, b) = index_of-nil t k h in omega (arith, ap length a)
index_of-fits (x ∷ s) t k h = elim (index_of-cons x s t k h) [
  | inl (y, z) ↦ omega (arith, length-starts_with (x ∷ s) t y)
  | inr (j, n, z, i) ↦ omega (arith, index_of-fits s t j i)
]

still :
    (x : ℕ) (s t u : Text)
    → starts_with (x ∷ s) t ≡ false
    → length t ≤ length s
    → starts_with (x ∷ s ++ u) t ≡ false
still x s t u n l = elim (Bool-cases (starts_with (x ∷ s ++ u) t)) [
  | inl y ↦ cc (starts_with-cut (x ∷ s) t u y (omega arith), n)
  | inr m ↦ m
]

-- Text that comes later does not move what was found.
pub index_of-append : (s t u : Text) (k : ℕ) → index_of s t ≡ some k → index_of (s ++ u) t ≡ some k
index_of-append [] t u k h =
    let (a, b) = index_of-nil t k h in rw (a, b) (index_of-starts u [] (starts_with-nil u))
index_of-append (x ∷ s) t u k h = elim (index_of-cons x s t k h) [
  | inl (y, z) ↦ rw z (index_of-starts (x ∷ s ++ u) t (starts_with-append (x ∷ s) t u y))
  | inr (j, n, z, i) ↦ rw z (
      index_of-later x j (s ++ u) t (still x s t u n (omega (arith, index_of-fits s t j i)))
        (index_of-append s t u j i))
]

-- What is found stands there: the text before it, itself, and the text behind it.
pub index_of-split :
    (s t : Text) (k : ℕ) → index_of s t ≡ some k → s ≡ take k s ++ (t ++ drop (k + length t) s)
index_of-split [] t k h = let (a, b) = index_of-nil t k h in rw (a, b)
index_of-split (x ∷ s) t k h = elim (index_of-cons x s t k h) [
  | inl (y, z) ↦
      let n : 0 + length t ≡ length t = omega arith in rw (z, n) (starts_with-split (x ∷ s) t y)
  | inr (j, n, z, i) ↦
      let m : suc j + length t ≡ suc (j + length t) = omega arith in
      rw (z, m) (ap (◌∷◌ x) (index_of-split s t j i))
]

-- What occurs is found, and no later than there.
pub index_of_first :
    (a t s : Text) → (k : ℕ) × (index_of (a ++ (t ++ s)) t ≡ some k) × (k ≤ length a)
index_of_first [] t s = (0, index_of-starts (t ++ s) t (starts_with_self t s), omega arith)
index_of_first (x ∷ a) t s = elim (Bool-cases (starts_with (x ∷ a ++ (t ++ s)) t)) [
  | inl y ↦ (0, index_of-starts (x ∷ a ++ (t ++ s)) t y, omega arith)
  | inr n ↦
      let (k, e, l) = index_of_first a t s in
      (suc k, index_of-later x k (a ++ (t ++ s)) t n e, omega arith)
]
