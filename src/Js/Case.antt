-- ===== src/Js/Case.antt =====
-- `toUpperCase` and `toLowerCase` on strings. Above ASCII they go by the Unicode tables, which are a
-- parameter; the rule that looks around a Greek final sigma is left out.
use pdn_whatspac_client.Base.{
  ℕ, ◌+◌, ◌-◌, ◌≡◌, ◌<◌, refl, ap, true, false, ◌&&◌, [], ◌∷◌, ◌++◌, map, Text, All, ltb, leb,
  if◌then◌else◌, arith,
}
use pdn_whatspac_client.Js.Json.Strings.{is_high, is_low}
use pdn_whatspac_client.Js.Utf8.{pair_point}

-- What a code point above ASCII becomes.
pub record Unicode : Type 0 where
  pub upper : ℕ → Text
  pub lower : ℕ → Text

abbrev pub ascii_upper : ℕ → ℕ
ascii_upper c = if leb b'a' c && leb c b'z' then c - 32 else c

abbrev pub ascii_lower : ℕ → ℕ
ascii_lower c = if leb b'A' c && leb c b'Z' then c + 32 else c

abbrev pub unit_by : (ℕ → ℕ) → (ℕ → Text) → ℕ → Text
unit_by ascii other c = if ltb c 128 then ascii c ∷ [] else other c

-- The text by its code points.
unfoldable pub by_points : (ℕ → ℕ) → (ℕ → Text) → Text → Text
by_points ascii other [] = []
by_points ascii other (c ∷ []) = unit_by ascii other c
by_points ascii other (c ∷ d ∷ s) =
    let pair = other (pair_point c d) ++ by_points ascii other s in
    let unit = unit_by ascii other c ++ by_points ascii other (d ∷ s) in
    if is_high c && is_low d then pair else unit

unfoldable pub to_upper_case : Unicode → Text → Text
to_upper_case u s = by_points ascii_upper u.upper s

unfoldable pub to_lower_case : Unicode → Text → Text
to_lower_case u s = by_points ascii_lower u.lower s

by_points-ascii :
    (ascii : ℕ → ℕ) (other : ℕ → Text) (s : Text)
    → All (λ c. c < 128) s
    → by_points ascii other s ≡ map ascii s
unfolding by_points
by_points-ascii ascii other [] h = refl
by_points-ascii ascii other (c ∷ []) h = let low : ltb c 128 ≡ true = ground (arith, h.0) in rw low
by_points-ascii ascii other (c ∷ d ∷ s) h =
    let low : ltb c 128 ≡ true = ground (arith, h.0) in
    let unpaired : (is_high c && is_low d) ≡ false = ground (arith, h.0) in
    rw (unpaired, low) (ap (λ t. ascii c ∷ t) (by_points-ascii ascii other (d ∷ s) h.1))

-- ASCII text is changed letter by letter, whatever the tables.
pub to_upper_case-ascii :
    (u : Unicode) (s : Text) → All (λ c. c < 128) s → to_upper_case u s ≡ map ascii_upper s
unfolding to_upper_case
to_upper_case-ascii u s h = by_points-ascii ascii_upper u.upper s h

pub to_lower_case-ascii :
    (u : Unicode) (s : Text) → All (λ c. c < 128) s → to_lower_case u s ≡ map ascii_lower s
unfolding to_lower_case
to_lower_case-ascii u s h = by_points-ascii ascii_lower u.lower s h
