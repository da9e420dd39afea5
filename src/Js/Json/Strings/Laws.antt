-- ===== src/Js/Json/Strings/Laws.antt =====
-- Reading a JSON string back.
use pdn_whatspac_client.Base.{
  ℕ, suc, ◌+◌, ◌*◌, ◌/◌, ◌%◌, ◌<◌, ◌≤◌, ◌≡◌, refl, ap, ◌∙◌, inl, inr, true, false, ◌&&◌, ◌||◌, none,
  some, [], ◌∷◌, ◌++◌, append-nil, append_assoc, All, Text, ltb, if◌then◌else◌, Bool-cases,
  Option-cases, arith,
}
use pdn_whatspac_client.Js.Json.Strings.{
  is_high, is_low, hex_digit, unicode_escape, short_escape, escape_unit, escape, hex_value, Place,
  plain, slash, hex, move, skip, emit, read_string,
}

-- Code units.
abbrev pub IsUnits : Text → Type 0
IsUnits = All (λ u. u < 65536)

hex_value-hex_digit : (d : ℕ) → d < 16 → hex_value (hex_digit d) ≡ some d
unfolding hex_value hex_digit
hex_value-hex_digit d h = ground arith

read_skip :
    (p q : Place) (out s : Text) (c : ℕ)
    → move p c ≡ skip q
    → read_string p out (c ∷ s) ≡ read_string q out s
unfolding read_string
read_skip p q out s c e = rw (e, read_string)

read_emit :
    (p : Place) (out s : Text) (c u : ℕ)
    → move p c ≡ emit u
    → read_string p out (c ∷ s) ≡ read_string plain (out ++ u ∷ []) s
unfolding read_string
read_emit p out s c u e = rw (e, read_string)

move_hex :
    (n acc d : ℕ) → d < 16 → move (hex (suc n) acc) (hex_digit d) ≡ skip (hex n (acc * 16 + d))
unfolding move
move_hex n acc d h = rw (hex_value-hex_digit d h, move)

move_last : (acc d : ℕ) → d < 16 → move (hex 0 acc) (hex_digit d) ≡ emit (acc * 16 + d)
unfolding move
move_last acc d h = rw (hex_value-hex_digit d h, move)

read_unicode :
    (out k : Text) (c : ℕ)
    → c < 65536
    → read_string plain out (unicode_escape c k) ≡ read_string plain (out ++ c ∷ []) k
unfolding unicode_escape
read_unicode out k c h =
    read_skip plain slash out _ b'\\' (unfold move in refl)
    ∙ read_skip slash (hex 3 0) out _ b'u' (unfold move in refl)
    ∙ read_skip (hex 3 0) (hex 2 (0 * 16 + c / 4096 % 16)) out _ _
        (move_hex 2 0 (c / 4096 % 16) (omega arith))
    ∙ read_skip (hex 2 _) (hex 1 _) out _ _ (move_hex 1 _ (c / 256 % 16) (omega arith))
    ∙ read_skip (hex 1 _) (hex 0 _) out _ _ (move_hex 0 _ (c / 16 % 16) (omega arith))
    ∙ read_emit (hex 0 _) out k _ _ (move_last _ (c % 16) (omega arith))
    ∙ ap (λ u. read_string plain (out ++ u ∷ []) k) (sum c h)
  where
    sum :
        (c : ℕ)
        → c < 65536
        → (((0 * 16 + c / 4096 % 16) * 16 + c / 256 % 16) * 16 + c / 16 % 16) * 16 + c % 16 ≡ c
    sum c h = omega arith

short_move :
    (c e : ℕ) → short_escape c ≡ some e → (move plain b'\\' ≡ skip slash) × (move slash e ≡ emit c)
unfolding short_escape move
short_move c e h = (refl, ground arith)

plain-move : (c : ℕ) → short_escape c ≡ none → 32 ≤ c → move plain c ≡ emit c
unfolding short_escape move
plain-move c h l = ground arith

read_unit :
    (out k : Text) (c : ℕ)
    → c < 65536
    → read_string plain out (escape_unit c k) ≡ read_string plain (out ++ c ∷ []) k
unfolding escape_unit
read_unit out k c h = elim (Option-cases (short_escape c)) [
  | inr (e, q) ↦
      let (m, n) = short_move c e q in
      rw (q, escape_unit) (read_skip plain slash out (e ∷ k) b'\\' m ∙ read_emit slash out k e c n)
  | inl q ↦ elim (Bool-cases (ltb c 32)) [
    | inl low ↦ rw (q, escape_unit, low) (read_unicode out k c h)
    | inr high ↦
        rw (q, escape_unit, high) (read_emit plain out k c c (plain-move c q (ground arith)))
  ]
]

read_end : (out k : Text) → read_string plain out (34 ∷ k) ≡ some (out ++ [], k)
unfolding read_string
read_end out k = rw append-nil

surrogate_move : (c : ℕ) → 0xd800 ≤ c → move plain c ≡ emit c
unfolding move
surrogate_move c h = ground arith

read_pair :
    (out k : Text) (c d : ℕ)
    → (is_high c && is_low d) ≡ true
    → read_string plain out (c ∷ d ∷ k) ≡ read_string plain (out ++ c ∷ d ∷ []) k
read_pair out k c d h =
    read_emit plain out (d ∷ k) c c (surrogate_move c (ground arith))
    ∙ read_emit plain (out ++ c ∷ []) k d d (surrogate_move d (ground arith))
    ∙ rw append_assoc

-- A unit that has no partner, escaped or not.
abbrev lone : ℕ → Text → Text
lone c k = if is_high c || is_low c then unicode_escape c k else escape_unit c k

read_lone :
    (out k : Text) (c : ℕ)
    → c < 65536
    → read_string plain out (lone c k) ≡ read_string plain (out ++ c ∷ []) k
read_lone out k c h = elim (Bool-cases (is_high c || is_low c)) [
  | inl s ↦ rw s (read_unicode out k c h)
  | inr n ↦ rw n (read_unit out k c h)
]

escape-pair :
    (c d : ℕ) (s k : Text)
    → (is_high c && is_low d) ≡ true
    → escape (c ∷ d ∷ s) k ≡ c ∷ d ∷ escape s k
unfolding escape
escape-pair c d s k h = rw h

escape-lone :
    (c d : ℕ) (s k : Text)
    → (is_high c && is_low d) ≡ false
    → escape (c ∷ d ∷ s) k ≡ lone c (escape (d ∷ s) k)
unfolding escape
escape-lone c d s k h = rw h

-- The reader takes back any text from its escaped form, and stops behind the closing quote.
pub read_string-escape :
    (t out k : Text) → IsUnits t → read_string plain out (escape t (34 ∷ k)) ≡ some (out ++ t, k)
read_string-escape [] out k h = unfold escape in read_end out k
read_string-escape (c ∷ []) out k h =
    unfold escape in (read_lone out (34 ∷ k) c h.0 ∙ read_end (out ++ c ∷ []) k ∙ rw append-nil)
read_string-escape (c ∷ d ∷ s) out k h = elim (Bool-cases (is_high c && is_low d)) [
  | inl p ↦
      rw (escape-pair c d s (34 ∷ k) p)
        (read_pair out _ c d p ∙ read_string-escape s (out ++ c ∷ d ∷ []) k h.1.1 ∙ rw append_assoc)
  | inr n ↦
      rw (escape-lone c d s (34 ∷ k) n)
        (read_lone out _ c h.0 ∙ read_string-escape (d ∷ s) (out ++ c ∷ []) k h.1 ∙ rw append_assoc)
]
