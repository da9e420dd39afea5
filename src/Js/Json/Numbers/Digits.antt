-- ===== src/Js/Json/Numbers/Digits.antt =====
-- The decimal digits of a number.
use pdn_whatspac_client.Base.{
  ℕ, zero, suc, ◌+◌, ◌*◌, ◌/◌, ◌%◌, ◌<◌, ◌≤◌, ◌≡◌, refl, ap, ◌∙◌, inl, inr, List, [], ◌∷◌, ◌++◌,
  All, All-append, Text, length, length-append, ltb, Bool-cases, arith,
}
use pdn_whatspac_client.Js.Json.Numbers.{digits_fuel, ascii_digits, value_of}

abbrev pub IsDigits : List ℕ → Type 0
IsDigits = All (λ d. d < 10)

value_of-append :
    (acc : ℕ) (ds es : List ℕ) → value_of acc (ds ++ es) ≡ value_of (value_of acc ds) es
unfolding value_of
value_of-append acc [] es = refl
value_of-append acc (d ∷ ds) es = value_of-append (acc * 10 + d) ds es

pub value_of-digits : (f n : ℕ) → n ≤ f → value_of 0 (digits_fuel f n) ≡ n
unfolding digits_fuel value_of
value_of-digits zero n h = omega arith
value_of-digits (suc f) n h = elim (Bool-cases (ltb n 10)) [
  | inl small ↦ rw small (omega arith)
  | inr large ↦ rw large (
      value_of-append 0 (digits_fuel f (n / 10)) (n % 10 ∷ [])
      ∙ rw (value_of-digits f (n / 10) (ground arith)) (omega arith))
]

pub digits_lem : (f n : ℕ) → n ≤ f → IsDigits (digits_fuel f n)
unfolding digits_fuel
digits_lem zero n h = omega arith
digits_lem (suc f) n h = elim (Bool-cases (ltb n 10)) [
  | inl small ↦ rw small (ground arith)
  | inr large ↦ rw large (
      All-append (λ d. d < 10) (digits_fuel f (n / 10)) (n % 10 ∷ [])
        (digits_lem f (n / 10) (ground arith)) (omega arith))
]

-- No zero stands in front, but for zero itself.
pub data Leads : ℕ → List ℕ → Type 0 where
  naught : {n : ℕ} {ds : List ℕ} → n ≡ 0 → ds ≡ 0 ∷ [] → Leads n ds
  leads : {n d : ℕ} {es ds : List ℕ} → 0 < d → ds ≡ d ∷ es → Leads n ds

Leads-single : (n : ℕ) → Leads n (n ∷ [])
Leads-single zero = naught refl refl
Leads-single (suc n) = leads (omega arith) refl

Leads-append : {m : ℕ} {ds : List ℕ} (n e : ℕ) → Leads m ds → 0 < m → Leads n (ds ++ e ∷ [])
Leads-append n e (naught z _) h = absurd (omega arith)
Leads-append n e (leads {d} {es} p q) h = leads p (ap (λ l. l ++ e ∷ []) q)

pub digits-Leads : (f n : ℕ) → n ≤ f → Leads n (digits_fuel f n)
unfolding digits_fuel
digits-Leads zero zero h = naught refl refl
digits-Leads zero (suc n) h = absurd (omega arith)
digits-Leads (suc f) n h = elim (Bool-cases (ltb n 10)) [
  | inl small ↦ rw small (Leads-single n)
  | inr large ↦
      rw large (Leads-append n (n % 10) (digits-Leads f (n / 10) (ground arith)) (ground arith))
]

pub length-digits : (f n : ℕ) → 1 ≤ length (digits_fuel f n)
unfolding digits_fuel
length-digits zero n = omega arith
length-digits (suc f) n = ground (arith, length-append (digits_fuel f (n / 10)) (n % 10 ∷ []))

pub length-ascii_digits :
    (ds : List ℕ) (k : Text) → length (ascii_digits ds ++ k) ≡ length ds + length k
length-ascii_digits [] k = omega arith
length-ascii_digits (d ∷ ds) k = omega (arith, length-ascii_digits ds k)
