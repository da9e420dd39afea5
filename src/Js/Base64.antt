-- ===== src/Js/Base64.antt =====
-- `Buffer.from(bytes).toString("base64")` and `Buffer.from(text, "base64")`.
pub mod RoundTrip
use pdn_whatspac_client.Base.{
  ℕ, zero, suc, ◌+◌, ◌-◌, ◌*◌, ◌/◌, ◌%◌, Bool, ◌&&◌, ◌||◌, Option, none, some, List, [], ◌∷◌, ◌++◌,
  Text, Bytes, ltb, leb, ◌==◌, if◌then◌else◌,
}

-- The character of six bits.
unfoldable pub alphabet : ℕ → ℕ
alphabet n =
    if ltb n 26
    then b'A' + n
    else if ltb n 52
    then b'a' + (n - 26)
    else if ltb n 62
    then b'0' + (n - 52)
    else if n == 62
    then b'+'
    else b'/'

-- Three bytes are four characters; `=` fills up the last group.
unfoldable pub bytes_to_base64 : Bytes → Text
bytes_to_base64 [] = []
bytes_to_base64 (a ∷ []) = alphabet (a / 4) ∷ alphabet (a % 4 * 16) ∷ b'=' ∷ b'=' ∷ []
bytes_to_base64 (a ∷ b ∷ []) =
    alphabet (a / 4) ∷ alphabet (a % 4 * 16 + b / 16) ∷ alphabet (b % 16 * 4) ∷ b'=' ∷ []
bytes_to_base64 (a ∷ b ∷ c ∷ bs) =
    alphabet (a / 4)
    ∷ alphabet (a % 4 * 16 + b / 16)
    ∷ alphabet (b % 16 * 4 + c / 64)
    ∷ alphabet (c % 64)
    ∷ bytes_to_base64 bs

-- Six bits of a character of either alphabet.
unfoldable pub six_bits : ℕ → Option ℕ
six_bits c =
    if leb b'A' c && leb c b'Z'
    then some (c - b'A')
    else if leb b'a' c && leb c b'z'
    then some (c - b'a' + 26)
    else if leb b'0' c && leb c b'9'
    then some (c - b'0' + 52)
    else if c == b'+' || c == b'-'
    then some 62
    else if c == b'/' || c == b'_'
    then some 63
    else none

-- The reader skips other characters, and stops at `=`.
unfoldable pub sextets : Text → List ℕ
sextets [] = []
sextets (c ∷ s) =
    let rest = sextets s in
    if c == b'=' then [] else elim (six_bits c) [ none ↦ rest | some v ↦ v ∷ rest ]

unfoldable pub pack : List ℕ → Bytes
pack (w ∷ x ∷ []) = (w * 4 + x / 16) ∷ []
pack (w ∷ x ∷ y ∷ []) = (w * 4 + x / 16) ∷ (x % 16 * 16 + y / 4) ∷ []
pack (w ∷ x ∷ y ∷ z ∷ r) = (w * 4 + x / 16) ∷ (x % 16 * 16 + y / 4) ∷ (y % 4 * 64 + z) ∷ pack r
pack _ = []

unfoldable pub base64_to_bytes : Text → Bytes
unfolding sextets six_bits pack
base64_to_bytes s = pack (sextets s)
