-- ===== src/Rf/Session/Wording/Plain.antt =====
-- Texts without line feeds, among them what src/heads/rf/session.ts makes of a text and of a name.
use pdn_whatspac_client.Base.{
  ℕ, ◌-◌, ◌≢◌, ◌≤◌, inl, inr, Bool-cases, false, Option, none, some, List, [], ◌∷◌, ◌++◌, Text,
  codes, text_eq, All, All-append, All-take, length, take, length-take, length-append, ltb, ◌==◌,
  arith,
}
use pdn_whatspac_client.Js.Trim.{is_blank}
use pdn_whatspac_client.Js.Json.Numbers.{digits, ascii_digits, write_nat}
use pdn_whatspac_client.Js.Json.Numbers.Digits.{IsDigits, digits_lem}
use pdn_whatspac_client.Protocol.Messages.{Callsign}
use pdn_whatspac_client.Store.{HamRow}
use pdn_whatspac_client.Store.Rows.{find}
use pdn_whatspac_client.Rf.Session.Wording.{
  channel_label, is_data_image, is_bare_jpeg, replace_images, on_one_line, scrub, truncate, named,
  name_of,
}

-- A text without line feeds.
abbrev pub IsLine : Text → Type 0
IsLine s = All (λ c. c ≢ 10) s

on_one_line-IsLine : (s : Text) → IsLine (on_one_line s)
unfolding on_one_line
on_one_line-IsLine [] = tt
on_one_line-IsLine (c ∷ s) = elim (Bool-cases (c == 13)) [
  | inl y ↦ rw y (on_one_line-IsLine s)
  | inr n ↦ elim (Bool-cases (c == 10)) [
    | inl z ↦ rw (n, z) (omega arith, on_one_line-IsLine s)
    | inr m ↦ rw (n, m) (ground (arith, m), on_one_line-IsLine s)
  ]
]

-- Whatever a message's text holds, it is shown on one line.
pub scrub-IsLine : (text : Text) → IsLine (scrub text)
unfolding scrub
scrub-IsLine [] = omega arith
scrub-IsLine (c ∷ text) = elim (Bool-cases (is_data_image (c ∷ text))) [
  | inl y ↦ rw y (omega arith)
  | inr n ↦ elim (Bool-cases (is_bare_jpeg (c ∷ text))) [
    | inl z ↦ rw (n, z) (omega arith)
    | inr m ↦ rw (n, m) (on_one_line-IsLine (replace_images 0 false (c ∷ text)))
  ]
]

pub append-IsLine : (s t : Text) → IsLine s → IsLine t → IsLine (s ++ t)
append-IsLine s t h k = All-append (λ c. c ≢ 10) s t h k

pub truncate-IsLine : (s : Text) (max : ℕ) → IsLine s → IsLine (truncate s max)
unfolding truncate
truncate-IsLine s max h = elim (Bool-cases (ltb max (length s))) [
  | inl y ↦ rw y (
      append-IsLine (take (max - 1) s) (codes "…") (All-take (λ c. c ≢ 10) (max - 1) s h)
        (omega arith))
  | inr n ↦ rw n h
]

-- A preview is no longer than its limit.
pub length-truncate : (s : Text) (max : ℕ) → 1 ≤ max → length (truncate s max) ≤ max
unfolding truncate
length-truncate s max h = elim (Bool-cases (ltb max (length s))) [
  | inl y ↦
      rw y (omega (arith, length-append (take (max - 1) s) (codes "…"), length-take (max - 1) s))
  | inr n ↦ rw n (ground (arith, n))
]

ascii_digits-IsLine : (ds : List ℕ) → IsDigits ds → IsLine (ascii_digits ds)
ascii_digits-IsLine [] h = tt
ascii_digits-IsLine (d ∷ ds) h = (omega arith, ascii_digits-IsLine ds h.1)

pub write_nat-IsLine : (n : ℕ) (k : Text) → IsLine k → IsLine (write_nat n k)
unfolding write_nat
write_nat-IsLine n k h =
    append-IsLine (ascii_digits (digits n)) k
      (ascii_digits-IsLine (digits n) (digits_lem n n (omega arith))) h

abbrev pub IsNameLine : Option Text → Type 0
IsNameLine none = Unit {0}
IsNameLine (some n) = IsLine n

pub name_of-IsNameLine :
    (c : Callsign) (hams : List HamRow)
    → All (λ q. IsNameLine q.n) hams
    → IsNameLine (name_of (find (λ q. q.c) c hams))
unfolding find
name_of-IsNameLine c [] h = tt
name_of-IsNameLine c (q ∷ hams) h = elim (Bool-cases (text_eq q.c c)) [
  | inl y ↦ rw y (h.0)
  | inr n ↦ rw n (name_of-IsNameLine c hams h.1)
]

pub channel_label-IsLine :
    (cid : Text) (cn : Option Text) → IsLine cid → IsNameLine cn → IsLine (channel_label cid cn)
channel_label-IsLine cid none h k = h
channel_label-IsLine cid (some cn) h k = elim (Bool-cases (is_blank cn)) [
  | inl y ↦ rw y h
  | inr n ↦ rw n k
]

pub named-IsLine : (c : Callsign) (n : Option Text) → IsLine c → IsNameLine n → IsLine (named c n)
named-IsLine c none h k = h
named-IsLine c (some n) h k = elim (Bool-cases (is_blank n)) [
  | inl y ↦ rw y h
  | inr m ↦ rw m (
      append-IsLine c (codes " (" ++ (n ++ codes ")")) h (
        append-IsLine (codes " (") (n ++ codes ")") (omega arith)
          (append-IsLine n (codes ")") k (omega arith))))
]
