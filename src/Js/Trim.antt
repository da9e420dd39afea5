-- ===== src/Js/Trim.antt =====
-- `trim` on strings.
use pdn_whatspac_client.Base.{
  ℕ, ◌≡◌, ◌≢◌, ◌↔◌, refl, ap, ◌∙◌, inl, inr, Bool-cases, Bool, true, false, ◌&&◌, ◌||◌, [], ◌∷◌,
  ◌++◌, Text, All, leb, ◌==◌, if◌then◌else◌, arith,
}

-- White space and line ends.
abbrev pub is_space : ℕ → Bool
is_space u =
    (leb 9 u && leb u 13)
    || u == 32
    || u == 160
    || u == 0x1680
    || (leb 0x2000 u && leb u 0x200a)
    || u == 0x2028
    || u == 0x2029
    || u == 0x202f
    || u == 0x205f
    || u == 0x3000
    || u == 0xfeff

unfoldable pub trim_start : Text → Text
trim_start [] = []
trim_start (u ∷ s) = let rest = trim_start s in if is_space u then rest else u ∷ s

-- A character in front of what is left of the rest.
abbrev pub kept_before : ℕ → Text → Text
kept_before u [] = if is_space u then [] else u ∷ []
kept_before u (x ∷ s) = u ∷ x ∷ s

unfoldable pub trim_end : Text → Text
trim_end [] = []
trim_end (u ∷ s) = kept_before u (trim_end s)

unfoldable pub trim : Text → Text
trim s = trim_end (trim_start s)

-- `s.trim() === ""`.
unfoldable pub is_blank : Text → Bool
is_blank [] = true
is_blank (u ∷ s) = is_space u && is_blank s

abbrev pub IsSpace : Text → Type 0
IsSpace pad = All (λ u. is_space u ≡ true) pad

module _ (pad : Text) (h : IsSpace pad) where
  trim_end-space : trim_end pad ≡ []
  unfolding trim_end
  trim_end-space = blank pad h
    where
      blank : (s : Text) → IsSpace s → trim_end s ≡ []
      blank [] k = refl
      blank (u ∷ s) k = ap (kept_before u) (blank s k.1) ∙ rw (k.0)

  trim_end-append : (s : Text) → trim_end (s ++ pad) ≡ trim_end s
  unfolding trim_end
  trim_end-append [] = trim_end-space
  trim_end-append (u ∷ s) = ap (kept_before u) (trim_end-append s)

trim_start-append : (pad s : Text) → IsSpace pad → trim_start (pad ++ s) ≡ trim_start s
unfolding trim_start
trim_start-append [] s h = refl
trim_start-append (u ∷ pad) s h = rw (h.0) (trim_start-append pad s h.1)

trim_start-space : (pad : Text) → IsSpace pad → trim_start pad ≡ []
unfolding trim_start
trim_start-space [] h = refl
trim_start-space (u ∷ pad) h = rw (h.0) (trim_start-space pad h.1)

trim-append : (s pad : Text) → IsSpace pad → trim (s ++ pad) ≡ trim s
unfolding trim trim_start
trim-append [] pad h = rw (trim_start-space pad h)
trim-append (u ∷ s) pad h = elim (Bool-cases (is_space u)) [
  | inl y ↦ rw y (trim-append s pad h)
  | inr n ↦ rw n (trim_end-append pad h (u ∷ s))
]

-- White space around a text changes nothing.
pub trim-around :
    (pad s pad' : Text) → IsSpace pad → IsSpace pad' → trim (pad ++ (s ++ pad')) ≡ trim s
unfolding trim
trim-around pad s pad' h k =
    ap trim_end (trim_start-append pad (s ++ pad') h) ∙ trim-append s pad' k

kept_before-ne-nil : (u : ℕ) (s : Text) → is_space u ≡ false → kept_before u s ≢ []
kept_before-ne-nil u [] n e =
    let z = ap (λ b. if◌then◌else◌ {A = Text} b [] (u ∷ [])) n in absurd (ground (arith, z, e))
kept_before-ne-nil u (x ∷ s) n e = cc e

-- A text is blank exactly where nothing is left of it.
pub is_blank-trim : (s : Text) → (is_blank s ≡ true) ↔ (trim s ≡ [])
unfolding is_blank trim trim_start trim_end
is_blank-trim [] = (λ e. refl, λ e. refl)
is_blank-trim (u ∷ s) = elim (Bool-cases (is_space u)) [
  | inl y ↦ rw y (is_blank-trim s)
  | inr n ↦
      rw n (λ e. absurd (ground (arith, e)), λ e. absurd (kept_before-ne-nil u (trim_end s) n e))
]

-- No white space stands at the ends.
abbrev pub IsTrimmed : Text → Type 0
IsTrimmed s = (trim_start s ≡ s) × (trim_end s ≡ s)

pub trim_self : (s : Text) → IsTrimmed s → trim s ≡ s
unfolding trim
trim_self s h = ap trim_end h.0 ∙ h.1

abbrev pub IsWord : Text → Type 0
IsWord v = (v ≢ []) × All (λ c. is_space c ≡ false) v

trim_start-word : (c : ℕ) (s : Text) → is_space c ≡ false → trim_start (c ∷ s) ≡ c ∷ s
unfolding trim_start
trim_start-word c s h = rw h

trim_end-All : (v : Text) → All (λ c. is_space c ≡ false) v → trim_end v ≡ v
unfolding trim_end
trim_end-All [] h = refl
trim_end-All (c ∷ []) h = rw (h.0)
trim_end-All (c ∷ d ∷ v) h = ap (kept_before c) (trim_end-All (d ∷ v) h.1)

-- What ends in no white space keeps its end behind anything.
pub trim_end-behind :
    (v : Text) (x : ℕ) (s : Text) → trim_end (x ∷ s) ≡ x ∷ s → trim_end (v ++ x ∷ s) ≡ v ++ x ∷ s
unfolding trim_end
trim_end-behind [] x s h = h
trim_end-behind (c ∷ []) x s h = ap (kept_before c) h
trim_end-behind (c ∷ d ∷ v) x s h = ap (kept_before c) (trim_end-behind (d ∷ v) x s h)

pub IsTrimmed-word : (v : Text) → IsWord v → IsTrimmed v
IsTrimmed-word [] h = absurd (h.0 refl)
IsTrimmed-word (c ∷ v) h = (trim_start-word c v h.1.0, trim_end-All (c ∷ v) h.1)

pub IsTrimmed-line :
    (v : Text) (x : ℕ) (s : Text) → IsWord v → trim_end (x ∷ s) ≡ x ∷ s → IsTrimmed (v ++ x ∷ s)
IsTrimmed-line [] x s h e = absurd (h.0 refl)
IsTrimmed-line (c ∷ v) x s h e =
    (trim_start-word c (v ++ x ∷ s) h.1.0, trim_end-behind (c ∷ v) x s e)
