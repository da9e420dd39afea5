-- ===== src/Rf/Server/Lines.antt =====
-- The line loop of src/heads/rf/server.ts cuts the text at its line feeds.
use pdn_whatspac_client.Base.{
  ℕ, zero, suc, ◌+◌, ◌≤◌, ◌≡◌, refl, sym, ap, ◌∙◌, inl, inr, Bool-cases, Option-cases, none, some,
  [], ◌∷◌, ◌++◌, Text, length, length-drop, take, drop, index_of, ◌==◌, arith,
}
use pdn_whatspac_client.Base.Splits.{split, NotIn, split-NotIn, split-piece}
use pdn_whatspac_client.Base.Units.{starts_with-one}
use pdn_whatspac_client.Base.Find.{index_of-fits, index_of-split}
use pdn_whatspac_client.Rf.Server.{pull_lines}

index_of-none : (b : ℕ) (s : Text) → index_of s (b ∷ []) ≡ none → NotIn b s
unfolding index_of
index_of-none b [] h = tt
index_of-none b (x ∷ s) h = elim (Bool-cases (x == b)) [
  | inl y ↦ let z = starts_with-one x b s ∙ y in cc (z, h)
  | inr n ↦ elim (Option-cases (index_of s (b ∷ []))) [
    | inl e ↦ (n, index_of-none b s e)
    | inr (k, e) ↦ let z = starts_with-one x b s ∙ n in cc (z, e, h)
  ]
]

NotIn-take : (b : ℕ) (s : Text) (k : ℕ) → index_of s (b ∷ []) ≡ some k → NotIn b (take k s)
unfolding index_of
NotIn-take b s zero h = tt
NotIn-take b [] (suc k) h = tt
NotIn-take b (x ∷ s) (suc k) h = elim (Bool-cases (x == b)) [
  | inl y ↦ let z = starts_with-one x b s ∙ y in absurd (ground (arith, z, h))
  | inr n ↦ elim (Option-cases (index_of s (b ∷ []))) [
    | inl e ↦ let z = starts_with-one x b s ∙ n in absurd (ground (arith, z, e, h))
    | inr (j, e) ↦
        let z = starts_with-one x b s ∙ n in
        let same : j ≡ k = ground (arith, z, e, h) in (n, NotIn-take b s k (rw (← same) e))
  ]
]

-- With enough fuel the loop gives the text between the line feeds, and the rest.
pub pull_lines-split : (fuel : ℕ) (s : Text) → length s ≤ fuel → pull_lines fuel s ≡ split 10 [] s
unfolding pull_lines
pull_lines-split zero [] l = unfold split in refl
pull_lines-split zero (x ∷ s) l = absurd (omega arith)
pull_lines-split (suc fuel) s l = elim (Option-cases (index_of s (10 ∷ []))) [
  | inl e ↦ rw (e, pull_lines) (sym (split-NotIn 10 s [] (index_of-none 10 s e)))
  | inr (k, e) ↦
      let rest = drop (k + 1) s in
      let shorter : length rest ≤ fuel =
        omega (arith, length-drop (k + 1) s, index_of-fits s (10 ∷ []) k e) in
      let again = pull_lines-split fuel rest shorter in
      let whole : s ≡ take k s ++ 10 ∷ rest = index_of-split s (10 ∷ []) k e in
      let cut = ap (split 10 []) whole ∙ split-piece 10 (take k s) rest (NotIn-take 10 s k e) in
      rw (e, pull_lines, again) (sym cut)
]
