-- ===== src/Js/Json/Numbers/Laws.antt =====
-- Reading a JSON number back.
use pdn_whatspac_client.Base.{
  ℕ, ◌+◌, ◌-◌, ◌<◌, ◌≤◌, ◌≡◌, refl, inl, inr, Bool, true, false, ◌&&◌, ◌||◌, some, List, [], ◌∷◌,
  ◌++◌, Text, length, ◌==◌, Bool-cases, arith,
}
use pdn_whatspac_client.Js.Json.Numbers.{
  digits, ascii_digits, write_nat, write_num, is_digit, span_digits, value_of, strip_zeros,
  read_whole, read_fraction, read_exponent, scale, read_num,
}
use pdn_whatspac_client.Js.Json.Numbers.Digits.{
  IsDigits, value_of-digits, digits_lem, digits-Leads, length-digits, length-ascii_digits, Leads,
  naught, leads,
}

-- The text does not go on with what could belong to a number.
abbrev pub IsBreak : Text → Type 0
IsBreak [] = Unit
IsBreak (c ∷ k) = (is_digit c || c == b'.' || c == b'e' || c == b'E') ≡ false

abbrev pub NoDigit : Text → Type 0
NoDigit [] = Unit
NoDigit (c ∷ k) = is_digit c ≡ false

span_digits-NoDigit : (k : Text) → NoDigit k → span_digits k ≡ ([], k)
unfolding span_digits
span_digits-NoDigit [] h = refl
span_digits-NoDigit (c ∷ k) h = rw h

span_digits-ascii_digits :
    (ds : List ℕ) (k : Text)
    → IsDigits ds
    → NoDigit k
    → span_digits (ascii_digits ds ++ k) ≡ (ds, k)
unfolding span_digits
span_digits-ascii_digits [] k h b = span_digits-NoDigit k b
span_digits-ascii_digits (d ∷ ds) k h b =
    let e : 48 + d - 48 ≡ d = omega arith in
    let t : is_digit (48 + d) ≡ true = ground arith in
    rw (span_digits, t, span_digits-ascii_digits ds k h.1 b, e)

read_whole-lead :
    (d : ℕ) (es : List ℕ) (k : Text)
    → 0 < d
    → IsDigits (d ∷ es)
    → NoDigit k
    → read_whole (ascii_digits (d ∷ es) ++ k) ≡ some (value_of 0 (d ∷ es), k)
unfolding read_whole
read_whole-lead d es k p h b =
    let z : (48 + d == b'0') ≡ false = ground arith in
    let t : is_digit (48 + d) ≡ true = ground arith in
    rw (z, t, span_digits-ascii_digits (d ∷ es) k h b)

read_whole_of :
    {n : ℕ} {ds : List ℕ} (k : Text)
    → Leads n ds
    → value_of 0 ds ≡ n
    → IsDigits ds
    → NoDigit k
    → read_whole (ascii_digits ds ++ k) ≡ some (n, k)
read_whole_of k (naught z q) v h b = rw (z, q) (unfold read_whole in refl)
read_whole_of k (leads {d} {es} p q) v h b = rw (← v, q) (read_whole-lead d es k p (rw q at h) b)

read_whole-write_nat : (n : ℕ) (k : Text) → NoDigit k → read_whole (write_nat n k) ≡ some (n, k)
unfolding write_nat
read_whole-write_nat n k b =
    read_whole_of k (digits-Leads n n (omega arith)) (value_of-digits n n (omega arith))
      (digits_lem n n (omega arith)) b

IsBreak-NoDigit : (k : Text) → IsBreak k → NoDigit k
IsBreak-NoDigit [] h = tt
IsBreak-NoDigit (c ∷ k) h = ground arith

read_fraction-IsBreak : (k : Text) → IsBreak k → read_fraction k ≡ some ([], k)
unfolding read_fraction
read_fraction-IsBreak [] h = refl
read_fraction-IsBreak (c ∷ k) h = ground arith

read_exponent-IsBreak : (k : Text) → IsBreak k → read_exponent k ≡ some (false, 0, k)
unfolding read_exponent
read_exponent-IsBreak [] h = refl
read_exponent-IsBreak (c ∷ k) h = ground arith

read_fraction-digits :
    (d : ℕ) (ds : List ℕ) (k : Text)
    → IsDigits (d ∷ ds)
    → IsBreak k
    → read_fraction (b'.' ∷ (ascii_digits (d ∷ ds) ++ k)) ≡ some (d ∷ ds, k)
unfolding read_fraction
read_fraction-digits d ds k h b = rw (span_digits-ascii_digits (d ∷ ds) k h (IsBreak-NoDigit k b))

-- A number that `JSON.stringify` writes, without its sign.
pub write_unsigned : ℕ → List ℕ → Text → Text
write_unsigned whole [] k = write_nat whole k
write_unsigned whole (d ∷ ds) k = write_nat whole (b'.' ∷ (ascii_digits (d ∷ ds) ++ k))

pub read_num-write_unsigned :
    (whole : ℕ) (fraction : List ℕ) (k : Text)
    → IsDigits fraction
    → strip_zeros fraction ≡ fraction
    → IsBreak k
    → read_num (write_unsigned whole fraction k) ≡ some (whole, fraction, k)
unfolding read_num write_unsigned scale strip_zeros
read_num-write_unsigned whole [] k h e b = rw (
  read_whole-write_nat whole k (IsBreak-NoDigit k b),
  read_fraction-IsBreak k b,
  read_exponent-IsBreak k b,
)
read_num-write_unsigned whole (d ∷ ds) k h e b = rw (
  read_whole-write_nat whole (b'.' ∷ (ascii_digits (d ∷ ds) ++ k)) refl,
  read_fraction-digits d ds k h b,
  read_exponent-IsBreak k b,
  e,
)

Leads-digit :
    {n : ℕ} {ds : List ℕ} (k : Text)
    → Leads n ds
    → IsDigits ds
    → (c : ℕ) × (s : Text) × (ascii_digits ds ++ k ≡ c ∷ s) × (is_digit c ≡ true)
Leads-digit k (naught _ q) h = (b'0', k, rw q, refl)
Leads-digit k (leads {d} {es} p q) h =
    let h' : IsDigits (d ∷ es) = rw q at h in
    (48 + d, ascii_digits es ++ k, rw q, ground (arith, h'.0))

-- A number begins with a digit.
pub write_unsigned-digit :
    (whole : ℕ) (fraction : List ℕ) (k : Text)
    → (c : ℕ) × (s : Text) × (write_unsigned whole fraction k ≡ c ∷ s) × (is_digit c ≡ true)
unfolding write_unsigned write_nat
write_unsigned-digit whole [] k =
    Leads-digit k (digits-Leads whole whole (omega arith)) (digits_lem whole whole (omega arith))
write_unsigned-digit whole (d ∷ ds) k =
    Leads-digit _ (digits-Leads whole whole (omega arith)) (digits_lem whole whole (omega arith))

-- -0 is left out: `JSON.stringify` writes it as 0.
abbrev pub is_negative_zero : Bool → ℕ → List ℕ → Bool
is_negative_zero negative whole [] = negative && whole == 0
is_negative_zero negative whole (d ∷ ds) = false

pub write_num-unsigned :
    (whole : ℕ) (fraction : List ℕ) (k : Text)
    → write_num false whole fraction k ≡ write_unsigned whole fraction k
unfolding write_num write_unsigned
write_num-unsigned whole [] k = refl
write_num-unsigned whole (d ∷ ds) k = refl

pub write_num-negative :
    (whole : ℕ) (fraction : List ℕ) (k : Text)
    → is_negative_zero true whole fraction ≡ false
    → write_num true whole fraction k ≡ b'-' ∷ write_unsigned whole fraction k
unfolding write_num write_unsigned
write_num-negative whole [] k h = rw h
write_num-negative whole (d ∷ ds) k h = refl

pub write_num-zero :
    (whole : ℕ) (fraction : List ℕ) (k : Text)
    → is_negative_zero true whole fraction ≡ true
    → write_num true whole fraction k ≡ write_unsigned whole fraction k
unfolding write_num write_unsigned
write_num-zero whole [] k h = rw h
write_num-zero whole (d ∷ ds) k h = cc

length-write_nat : (n : ℕ) (k : Text) → 1 + length k ≤ length (write_nat n k)
unfolding write_nat
length-write_nat n k = omega (arith, length-ascii_digits (digits n) k, length-digits n n)

length-write_unsigned :
    (whole : ℕ) (fraction : List ℕ) (k : Text)
    → 1 + length k ≤ length (write_unsigned whole fraction k)
unfolding write_unsigned
length-write_unsigned whole [] k = length-write_nat whole k
length-write_unsigned whole (d ∷ ds) k = omega (
  arith,
  length-write_nat whole (b'.' ∷ (ascii_digits (d ∷ ds) ++ k)),
  length-ascii_digits (d ∷ ds) k,
)

pub length-write_num :
    (negative : Bool) (whole : ℕ) (fraction : List ℕ) (k : Text)
    → 1 + length k ≤ length (write_num negative whole fraction k)
length-write_num false whole fraction k =
    rw write_num-unsigned (length-write_unsigned whole fraction k)
length-write_num true whole fraction k = elim (Bool-cases (is_negative_zero true whole fraction)) [
  | inl nought ↦
      rw (write_num-zero whole fraction k nought) (length-write_unsigned whole fraction k)
  | inr other ↦
      rw (write_num-negative whole fraction k other)
        (omega (arith, length-write_unsigned whole fraction k))
]
