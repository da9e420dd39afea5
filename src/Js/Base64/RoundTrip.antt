-- ===== src/Js/Base64/RoundTrip.antt =====
-- Base64 decoding gives back the encoded bytes.
use pdn_whatspac_client.Base.{
  ℕ, ◌+◌, ◌*◌, ◌/◌, ◌%◌, ◌<◌, ◌≤◌, ◌≡◌, refl, false, some, List, [], ◌∷◌, Text, Bytes, ◌==◌, All,
  arith,
}
use pdn_whatspac_client.Js.Base64.{
  alphabet, bytes_to_base64, six_bits, sextets, pack, base64_to_bytes,
}

abbrev IsBytes : Bytes → Type 0
IsBytes = All (λ b. b < 256)

six_bits-alphabet : (n : ℕ) → n < 64 → six_bits (alphabet n) ≡ some n
unfolding six_bits alphabet
six_bits-alphabet n h = ground arith

alphabet-ne : (n : ℕ) → n < 64 → (alphabet n == b'=') ≡ false
unfolding alphabet
alphabet-ne n h = ground arith

sextets-alphabet : (n : ℕ) (s : Text) → n < 64 → sextets (alphabet n ∷ s) ≡ n ∷ sextets s
unfolding sextets
sextets-alphabet n s h = rw (alphabet-ne n h, six_bits-alphabet n h)

alphabet-range : (n : ℕ) → n < 64 → (32 ≤ alphabet n) × (alphabet n < 128)
unfolding alphabet
alphabet-range n h = ground arith

sextets_end : (s : Text) → sextets (b'=' ∷ s) ≡ []
unfolding sextets
sextets_end s = refl

-- The six-bit groups of the bytes.
abbrev groups : Bytes → List ℕ
groups [] = []
groups (a ∷ []) = a / 4 ∷ a % 4 * 16 ∷ []
groups (a ∷ b ∷ []) = a / 4 ∷ (a % 4 * 16 + b / 16) ∷ b % 16 * 4 ∷ []
groups (a ∷ b ∷ c ∷ bs) = a / 4 ∷ (a % 4 * 16 + b / 16) ∷ (b % 16 * 4 + c / 64) ∷ c % 64 ∷ groups bs

sextets-bytes_to_base64 : (bs : Bytes) → IsBytes bs → sextets (bytes_to_base64 bs) ≡ groups bs
unfolding bytes_to_base64
sextets-bytes_to_base64 [] h = unfold sextets in refl
sextets-bytes_to_base64 (a ∷ []) h = rw (
  sextets-alphabet (a / 4) _ (omega arith),
  sextets-alphabet (a % 4 * 16) _ (omega arith),
  sextets_end,
)
sextets-bytes_to_base64 (a ∷ b ∷ []) h = rw (
  sextets-alphabet (a / 4) _ (omega arith),
  sextets-alphabet (a % 4 * 16 + b / 16) _ (omega arith),
  sextets-alphabet (b % 16 * 4) _ (omega arith),
  sextets_end,
)
sextets-bytes_to_base64 (a ∷ b ∷ c ∷ bs) h = rw (
  sextets-alphabet (a / 4) _ (omega arith),
  sextets-alphabet (a % 4 * 16 + b / 16) _ (omega arith),
  sextets-alphabet (b % 16 * 4 + c / 64) _ (omega arith),
  sextets-alphabet (c % 64) _ (omega arith),
  sextets-bytes_to_base64 bs h.1.1.1,
)

pack-groups : (bs : Bytes) → IsBytes bs → pack (groups bs) ≡ bs
unfolding pack
pack-groups [] h = refl
pack-groups (a ∷ []) h = ground arith
pack-groups (a ∷ b ∷ []) h = ground arith
pack-groups (a ∷ b ∷ c ∷ bs) h = ground (arith, pack-groups bs h.1.1.1)

-- Decoding the base64 text of any bytes gives back those bytes.
pub base64_to_bytes-bytes_to_base64 :
    (bs : Bytes) → IsBytes bs → base64_to_bytes (bytes_to_base64 bs) ≡ bs
unfolding base64_to_bytes
base64_to_bytes-bytes_to_base64 bs h = rw (sextets-bytes_to_base64 bs h) (pack-groups bs h)

-- Base64 text has no control character.
pub bytes_to_base64-printed :
    (bs : Bytes) → IsBytes bs → All (λ c. (32 ≤ c) × (c < 256)) (bytes_to_base64 bs)
unfolding bytes_to_base64
bytes_to_base64-printed [] h = tt
bytes_to_base64-printed (a ∷ []) h =
    omega (arith, alphabet-range (a / 4) (omega arith), alphabet-range (a % 4 * 16) (omega arith))
bytes_to_base64-printed (a ∷ b ∷ []) h = omega (
  arith,
  alphabet-range (a / 4) (omega arith),
  alphabet-range (a % 4 * 16 + b / 16) (omega arith),
  alphabet-range (b % 16 * 4) (omega arith),
)
bytes_to_base64-printed (a ∷ b ∷ c ∷ bs) h =
    let p : (x : ℕ) → x < 64 → (32 ≤ alphabet x) × (alphabet x < 256) =
      λ x l. let (u, v) = alphabet-range x l in (u, omega arith) in
    (
      p _ (omega arith),
      (
        p _ (omega arith),
        (p _ (omega arith), (p _ (omega arith), bytes_to_base64-printed bs h.1.1.1)),
      ),
    )
