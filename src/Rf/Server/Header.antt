-- ===== src/Rf/Server/Header.antt =====
-- `parseHeader` of src/heads/rf/server.ts. A key that is set again takes the later value; the key
-- `__proto__`, which an object does not hold, is left out of account.
use pdn_whatspac_client.Base.{
  ℕ, ◌+◌, ◌≡◌, ◌≢◌, refl, sym, ap, ◌∙◌, Option, none, some, List, [], ◌∷◌, ◌++◌, Text, All, text_eq,
  text_eq_refl, take, drop, index_of, length, take-append_self, drop-append_self, drop-drop,
  append-nil, ◌==◌, if◌then◌else◌, false, Bool-cases, inl, inr, ==_iff, arith,
}
use pdn_whatspac_client.Base.Splits.{split, NotIn, split-NotIn, split-piece}
use pdn_whatspac_client.Base.Units.{index_of-behind}
use pdn_whatspac_client.Js.Trim.{
  trim, trim_end, kept_before, is_space, IsTrimmed, trim_self, trim-around,
}
use pdn_whatspac_client.Js.Case.{Unicode, to_lower_case}
use pdn_whatspac_client.Rf.Server.{strip_cr}

abbrev pub Entries : Type 0
Entries = List (Text × Text)

-- `text.split("\n")`.
abbrev pub all_pieces : List Text × Text → List Text
all_pieces (pieces, last) = pieces ++ last ∷ []

abbrev pub entry : Text → Text → Entries
entry [] value = []
entry (c ∷ key) value = (c ∷ key, value) ∷ []

-- A line without a colon, or with nothing before it, is passed over.
abbrev pub at_colon : Unicode → Text → Option ℕ → Entries
at_colon u line none = []
at_colon u line (some colon) =
    entry (to_lower_case u (trim (take colon line))) (trim (drop (colon + 1) line))

abbrev pub line_entries : Unicode → Text → Entries
line_entries u line = at_colon u line (index_of line (58 ∷ []))

abbrev pub lines_entries : Unicode → List Text → Entries
lines_entries u [] = []
lines_entries u (raw ∷ lines) = line_entries u (strip_cr raw) ++ lines_entries u lines

-- What is set, in order.
unfoldable pub parse_header : Unicode → Text → Entries
parse_header u text = lines_entries u (all_pieces (split 10 [] text))

-- `header[key]`.
unfoldable pub value_of : Text → Entries → Option Text
value_of key [] = none
value_of key ((k, v) ∷ entries) = elim (value_of key entries) [
  | some later ↦ some later
  | none ↦ if text_eq k key then some v else none
]

-- A header that pdn writes.
abbrev pub header_line : Text × Text → Text
header_line (k, v) = k ++ 58 ∷ 32 ∷ v

abbrev pub header_text : Text × Text → Entries → Text
header_text e [] = header_line e
header_text e (f ∷ entries) = header_line e ++ 10 ∷ header_text f entries

-- A key in lower case without a colon or white space at its ends, and a trimmed value.
abbrev pub IsEntry : Unicode → Text × Text → Type 0
IsEntry u (k, v) =
    (k ≢ [])
    × (to_lower_case u k ≡ k)
    × NotIn 58 k
    × IsTrimmed k
    × IsTrimmed v
    × NotIn 10 (header_line (k, v))

kept_before-inv : (x y : ℕ) (r s : Text) → kept_before x r ≡ x ∷ y ∷ s → r ≡ y ∷ s
kept_before-inv x y [] s e = elim (Bool-cases (is_space x)) [
  | inl h ↦
      let z = ap (λ b. if◌then◌else◌ {A = Text} b [] (x ∷ [])) h in absurd (ground (arith, z, e))
  | inr n ↦
      let z = ap (λ b. if◌then◌else◌ {A = Text} b [] (x ∷ [])) n in absurd (ground (arith, z, e))
]
kept_before-inv x y (c ∷ r) s e = cc e

kept_before-one : (x : ℕ) → kept_before x [] ≡ x ∷ [] → (x == 13) ≡ false
kept_before-one x e = elim (Bool-cases (x == 13)) [
  | inr n ↦ n
  | inl y ↦
      let blank : kept_before x [] ≡ [] = ap (λ t. kept_before t []) ((==_iff x 13).0 y) in
      cc (blank, e)
]

strip_cr-kept : (s : Text) → trim_end s ≡ s → strip_cr s ≡ s
unfolding trim_end
strip_cr-kept [] e = refl
strip_cr-kept (x ∷ []) e = rw (kept_before-one x e)
strip_cr-kept (x ∷ y ∷ s) e =
    ap (λ t. x ∷ t) (strip_cr-kept (y ∷ s) (kept_before-inv x y (trim_end (y ∷ s)) s e))

strip_cr-behind : (a : Text) (x : ℕ) (s : Text) → strip_cr (a ++ x ∷ s) ≡ a ++ strip_cr (x ∷ s)
strip_cr-behind [] x s = refl
strip_cr-behind (c ∷ []) x s = refl
strip_cr-behind (c ∷ d ∷ a) x s = ap (λ t. c ∷ t) (strip_cr-behind (d ∷ a) x s)

strip_cr-value : (v : Text) → trim_end v ≡ v → strip_cr (32 ∷ v) ≡ 32 ∷ v
strip_cr-value [] e = refl
strip_cr-value (x ∷ v) e = ap (λ t. 32 ∷ t) (strip_cr-kept (x ∷ v) e)

entry-some : (k v : Text) → k ≢ [] → entry k v ≡ (k, v) ∷ []
entry-some [] v n = absurd (n refl)
entry-some (c ∷ k) v n = refl

line_entries-header_line :
    (u : Unicode) (k v : Text)
    → IsEntry u (k, v)
    → line_entries u (strip_cr (header_line (k, v))) ≡ (k, v) ∷ []
line_entries-header_line u k v h =
    let rest = 32 ∷ v in
    let line = k ++ 58 ∷ rest in
    let spaced : trim rest ≡ v =
      ap (λ t. trim (32 ∷ t)) (sym (append-nil v))
      ∙ trim-around (32 ∷ []) v [] (refl, tt) tt
      ∙ trim_self v h.4 in
    ap (line_entries u)
      (strip_cr-behind k 58 rest ∙ ap (λ t. k ++ 58 ∷ t) (strip_cr-value v (h.4.1)))
    ∙ ap (at_colon u line) (index_of-behind 58 k rest h.2)
    ∙ ap (λ a. entry (to_lower_case u (trim a)) (trim (drop (length k + 1) line)))
        (take-append_self k (58 ∷ rest))
    ∙ ap (λ a. entry (to_lower_case u (trim k)) (trim a))
        (sym (drop-drop (length k) 1 (length k + 1) line refl)
          ∙ ap (drop 1) (drop-append_self k (58 ∷ rest)))
    ∙ ap (entry (to_lower_case u (trim k))) spaced
    ∙ ap (λ a. entry (to_lower_case u a) v) (trim_self k h.3)
    ∙ ap (λ a. entry a v) h.1
    ∙ entry-some k v h.0

-- A header of lines, each with a key in lower case that has no colon and no white space at its ends,
-- a colon, a space and a trimmed value without line feeds, is read entry by entry.
pub parse_header-header_text :
    (u : Unicode) (e : Text × Text) (entries : Entries)
    → All (IsEntry u) (e ∷ entries)
    → parse_header u (header_text e entries) ≡ e ∷ entries
unfolding parse_header
parse_header-header_text u (k, v) [] h =
    ap (λ p. lines_entries u (all_pieces p)) (split-NotIn 10 (header_line (k, v)) [] (h.0.5))
    ∙ ap (λ t. t ++ []) (line_entries-header_line u k v h.0)
parse_header-header_text u (k, v) (f ∷ entries) h =
    ap (λ p. lines_entries u (all_pieces p))
      (split-piece 10 (header_line (k, v)) (header_text f entries) (h.0.5))
    ∙ ap (λ t. t ++ lines_entries u (all_pieces (split 10 [] (header_text f entries))))
        (line_entries-header_line u k v h.0)
    ∙ ap (λ t. (k, v) ∷ t) (parse_header-header_text u f entries h.1)

-- The value of a key that stands last is the one set last.
pub value_of-append :
    (key v : Text) (entries : Entries) → value_of key (entries ++ (key, v) ∷ []) ≡ some v
unfolding value_of
value_of-append key v [] = rw (text_eq_refl key)
value_of-append key v ((k, w) ∷ entries) = rw (value_of-append key v entries)
