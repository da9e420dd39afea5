-- ===== src/Js/Json/Numbers.antt =====
-- JSON numbers: decimal digits, printed and read.
pub mod Digits
pub mod Laws
use pdn_whatspac_client.Base.{
  ℕ, zero, suc, ◌+◌, ◌-◌, ◌*◌, ◌/◌, ◌%◌, Bool, true, false, not, ◌&&◌, ◌||◌, Option, none, some,
  List, [], ◌∷◌, ◌++◌, map, Text, ltb, leb, ◌==◌, if◌then◌else◌,
}

-- The decimal digits of a number, the last one found first.
unfoldable pub digits_fuel : ℕ → ℕ → List ℕ
digits_fuel zero n = n ∷ []
digits_fuel (suc f) n =
    let rest = digits_fuel f (n / 10) in if ltb n 10 then n ∷ [] else rest ++ n % 10 ∷ []

abbrev pub digits : ℕ → List ℕ
digits n = digits_fuel n n

abbrev pub ascii_digits : List ℕ → Text
ascii_digits = map (λ d. 48 + d)

unfoldable pub write_nat : ℕ → Text → Text
unfolding digits_fuel
write_nat n k = ascii_digits (digits n) ++ k

-- A decimal in front of `k`. `JSON.stringify` writes -0 as 0.
unfoldable pub write_num : Bool → ℕ → List ℕ → Text → Text
unfolding write_nat
write_num negative whole [] k =
    if negative && not (whole == 0) then b'-' ∷ write_nat whole k else write_nat whole k
write_num negative whole (d ∷ fraction) k =
    let tail = write_nat whole (b'.' ∷ (ascii_digits (d ∷ fraction) ++ k)) in
    if negative then b'-' ∷ tail else tail

abbrev pub is_digit : ℕ → Bool
is_digit c = leb b'0' c && leb c b'9'

-- The digits at the front, and what follows them.
unfoldable pub span_digits : Text → List ℕ × Text
span_digits [] = ([], [])
span_digits (c ∷ s) =
    let (ds, rest) = span_digits s in if is_digit c then ((c - 48) ∷ ds, rest) else ([], c ∷ s)

unfoldable pub value_of : ℕ → List ℕ → ℕ
value_of acc [] = acc
value_of acc (d ∷ ds) = value_of (acc * 10 + d) ds

keep_digit : ℕ → List ℕ → List ℕ
keep_digit zero [] = []
keep_digit d ds = d ∷ ds

-- A fraction without the zeros at its end.
unfoldable pub strip_zeros : List ℕ → List ℕ
unfolding keep_digit
strip_zeros [] = []
strip_zeros (d ∷ ds) = keep_digit d (strip_zeros ds)

infixl 5 ◌>>=◌
abbrev pub ◌>>=◌ : {A B : Type 0} → Option A → (A → Option B) → Option B
none >>= f = none
some a >>= f = f a

-- A whole part has no zero in front.
unfoldable pub read_whole : Text → Option (ℕ × Text)
read_whole [] = none
read_whole (c ∷ s) =
    if c == b'0'
    then some (0, s)
    else if is_digit c
    then (let (ds, rest) = span_digits (c ∷ s) in some (value_of 0 ds, rest))
    else none

some_digits : List ℕ × Text → Option (List ℕ × Text)
some_digits ([], rest) = none
some_digits (d ∷ ds, rest) = some (d ∷ ds, rest)

unfoldable pub read_fraction : Text → Option (List ℕ × Text)
unfolding some_digits
read_fraction [] = some ([], [])
read_fraction (c ∷ s) = if c == b'.' then some_digits (span_digits s) else some ([], c ∷ s)

-- The sign of an exponent (`true` for a negative one), and what follows it.
exponent_sign : Text → Bool × Text
exponent_sign [] = (false, [])
exponent_sign (c ∷ s) =
    if c == b'-' then (true, s) else if c == b'+' then (false, s) else (false, c ∷ s)

unfoldable pub read_exponent : Text → Option (Bool × ℕ × Text)
unfolding exponent_sign some_digits
read_exponent [] = some (false, 0, [])
read_exponent (c ∷ s) =
    if c == b'e' || c == b'E'
    then (do
      let (down, t) = exponent_sign s
      (ds, rest) ← some_digits (span_digits t)
      some (down, value_of 0 ds, rest))
    else some (false, 0, c ∷ s)

-- The decimal point moved by a number of places.
unfoldable pub scale : Bool → ℕ → ℕ → List ℕ → ℕ × List ℕ
scale down zero whole fraction = (whole, fraction)
scale true (suc e) whole fraction = scale true e (whole / 10) (whole % 10 ∷ fraction)
scale false (suc e) whole [] = scale false e (whole * 10) []
scale false (suc e) whole (d ∷ ds) = scale false e (whole * 10 + d) ds

-- A number without its sign: its whole part, its fraction, and what follows.
unfoldable pub read_num : Text → Option (ℕ × List ℕ × Text)
read_num s = do
  (whole, t) ← read_whole s
  (fraction, u) ← read_fraction t
  (down, e, rest) ← read_exponent u
  let (w, f) = scale down e whole fraction
  some (w, strip_zeros f, rest)
