-- ===== src/Rf/Session/Lines/Plain.antt =====
-- What src/heads/rf reads in a line without line feeds holds none.
use pdn_whatspac_client.Base.{
  ◌⊎◌, ℕ, ◌+◌, ◌≡◌, ◌≢◌, inl, inr, Bool-cases, false, ◌&&◌, Option, none, some, [], ◌∷◌, Text, All,
  All-map, All-append, All-take, All-drop, take, drop, ltb, ◌==◌, index_of, arith,
}
use pdn_whatspac_client.Base.Splits.{NotIn}
use pdn_whatspac_client.Js.Trim.{is_space, trim_start, kept_before, trim_end, trim}
use pdn_whatspac_client.Js.Utf8.{pair_point}
use pdn_whatspac_client.Js.Json.Strings.{is_high, is_low}
use pdn_whatspac_client.Js.Case.{Unicode, ascii_upper, unit_by, by_points, to_upper_case}
use pdn_whatspac_client.Rf.Session.{Command, talk, unknown}
use pdn_whatspac_client.Rf.Session.Lines.{cut_at, command_of, command_in, command_on, read_command}
use pdn_whatspac_client.Rf.Session.Wording.Plain.{IsLine}
use pdn_whatspac_client.Rf.Server.{strip_cr}

module _ {κ} (P : ℕ → Type κ) where
  trim_start-All : (s : Text) → All P s → All P (trim_start s)
  unfolding trim_start
  trim_start-All [] h = tt
  trim_start-All (u ∷ s) h = elim (Bool-cases (is_space u)) [
    | inl y ↦ rw y (trim_start-All s h.1)
    | inr n ↦ rw n h
  ]

  kept_before-All : (u : ℕ) (s : Text) → P u → All P s → All P (kept_before u s)
  kept_before-All u [] p h = elim (Bool-cases (is_space u)) [
    | inl y ↦ rw y tt
    | inr n ↦ rw n (p, tt)
  ]
  kept_before-All u (x ∷ s) p h = (p, h)

  trim_end-All : (s : Text) → All P s → All P (trim_end s)
  unfolding trim_end
  trim_end-All [] h = tt
  trim_end-All (u ∷ s) h = kept_before-All u (trim_end s) h.0 (trim_end-All s h.1)

  pub trim-All : (s : Text) → All P s → All P (trim s)
  unfolding trim
  trim-All s h = trim_end-All (trim_start s) (trim_start-All s h)

  pub strip_cr-All : (s : Text) → All P s → All P (strip_cr s)
  strip_cr-All [] h = tt
  strip_cr-All (x ∷ []) h = elim (Bool-cases (x == 13)) [ inl y ↦ rw y tt | inr n ↦ rw n h ]
  strip_cr-All (x ∷ y ∷ s) h = (h.0, strip_cr-All (y ∷ s) h.1)

-- The two ways to say it.
pub NotIn-IsLine : (s : Text) → NotIn 10 s → IsLine s
NotIn-IsLine s h = All-map (λ b. (b == 10) ≡ false) (λ c. c ≢ 10) s (λ c n. ground (arith, n)) h

-- The tables make no line feed of another character.
abbrev pub HasPlainUpper : Unicode → Type 0
HasPlainUpper u = (c : ℕ) → c ≢ 10 → IsLine (u.upper c)

ascii_upper-ne-10 : (c : ℕ) → c ≢ 10 → ascii_upper c ≢ 10
ascii_upper-ne-10 c h = ground (arith, h)

module _ (u : Unicode) (plain : HasPlainUpper u) where
  unit_by-IsLine : (c : ℕ) → c ≢ 10 → IsLine (unit_by ascii_upper u.upper c)
  unit_by-IsLine c h = elim (Bool-cases (ltb c 128)) [
    | inl y ↦ rw y (ascii_upper-ne-10 c h, tt)
    | inr n ↦ rw n (plain c h)
  ]

  to_upper_case-IsLine : (s : Text) → IsLine s → IsLine (to_upper_case u s)
  unfolding to_upper_case by_points
  to_upper_case-IsLine [] h = tt
  to_upper_case-IsLine (c ∷ []) h = unit_by-IsLine c h.0
  to_upper_case-IsLine (c ∷ d ∷ s) h = elim (Bool-cases (is_high c && is_low d)) [
    | inl y ↦ rw y (
        All-append (λ x. x ≢ 10) (u.upper (pair_point c d)) (by_points ascii_upper u.upper s)
          (plain (pair_point c d) (omega arith)) (to_upper_case-IsLine s h.1.1))
    | inr n ↦ rw n (
        All-append (λ x. x ≢ 10) (unit_by ascii_upper u.upper c)
          (by_points ascii_upper u.upper (d ∷ s)) (unit_by-IsLine c h.0)
          (to_upper_case-IsLine (d ∷ s) h.1))
  ]

-- What of a command is shown again.
abbrev pub shown_of : Command → Text
shown_of (talk peer) = peer
shown_of (unknown verb) = verb
shown_of _ = []

abbrev pub IsPlainRead : Option Command → Type 0
IsPlainRead none = Unit {0}
IsPlainRead (some c) = IsLine (shown_of c)

shown_of-command_of :
    (u : Unicode) (verb rest : Text)
    → let s = shown_of (command_of u verb rest) in
      (s ≡ []) ⊎ (s ≡ to_upper_case u rest) ⊎ (s ≡ verb)
unfolding command_of
shown_of-command_of u verb rest = ground arith

module _ (u : Unicode) (plain : HasPlainUpper u) where
  command_of-IsPlain :
      (verb rest : Text) → IsLine verb → IsLine rest → IsLine (shown_of (command_of u verb rest))
  command_of-IsPlain verb rest h k = elim (shown_of-command_of u verb rest) [
    | inl e ↦ rw e tt
    | inr (inl e) ↦ rw e (to_upper_case-IsLine u plain rest k)
    | inr (inr e) ↦ rw e h
  ]

  cut_at-IsPlain :
      (sp : Option ℕ) (s : Text) → IsLine s → IsLine (shown_of (command_in u (cut_at sp s)))
  cut_at-IsPlain none s h =
      command_of-IsPlain (to_upper_case u s) [] (to_upper_case-IsLine u plain s h) tt
  cut_at-IsPlain (some sp) s h =
      command_of-IsPlain (to_upper_case u (take sp s)) (trim (drop (sp + 1) s))
        (to_upper_case-IsLine u plain (take sp s) (All-take (λ c. c ≢ 10) sp s h))
        (trim-All (λ c. c ≢ 10) (drop (sp + 1) s) (All-drop (λ c. c ≢ 10) (sp + 1) s h))

  command_on-IsPlain : (s : Text) → IsLine s → IsPlainRead (command_on u s)
  command_on-IsPlain [] h = tt
  command_on-IsPlain (c ∷ s) h = cut_at-IsPlain (index_of (c ∷ s) (32 ∷ [])) (c ∷ s) h

  -- The command in a line without line feeds.
  pub read_command-IsPlain : (line : Text) → IsLine line → IsPlainRead (read_command u line)
  unfolding read_command
  read_command-IsPlain line h = command_on-IsPlain (trim line) (trim-All (λ c. c ≢ 10) line h)
