-- ===== src/Examples/Compression.antt =====
-- A compressor to run src/protocol/framing.ts with: it knows one text.
use pdn_whatspac_client.Base.{
  ℕ, ◌+◌, ◌*◌, ◌/◌, ◌%◌, ◌<◌, ◌≡◌, refl, sym, ap, ◌==◌, inl, inr, true, Bool-cases, Option, none,
  some, [], ◌∷◌, Text, Bytes, All, text_eq, text_eq_iff, if◌then◌else◌, arith,
}
use pdn_whatspac_client.Js.Json.Strings.{is_high, is_low}
use pdn_whatspac_client.Js.Utf8.RoundTrip.{IsPrinted, nil, unit, pair}
use pdn_whatspac_client.Protocol.Pako.{Pako, IsZlib}

-- The text of a keepalive, `{"t":"k"}`.
abbrev pub known : Text
known = 123 ∷ 34 ∷ 116 ∷ 34 ∷ 58 ∷ 34 ∷ 107 ∷ 34 ∷ 125 ∷ []

spread : Text → Bytes
spread [] = []
spread (c ∷ s) = (c / 256) % 256 ∷ c % 256 ∷ spread s

gather : Bytes → Text
gather (h ∷ l ∷ s) = (h * 256 + l) ∷ gather s
gather _ = []

toy_deflate : Text → Bytes
unfolding spread
toy_deflate s = if text_eq s known then 1 ∷ [] else 0 ∷ spread s

toy_inflate : Bytes → Option Text
unfolding gather
toy_inflate [] = none
toy_inflate (b ∷ bs) = if b == 1 then some known else some (gather bs)

unfoldable pub toy : Pako
unfolding toy_deflate toy_inflate
toy = record { deflate = toy_deflate; inflate = toy_inflate }

spread-bytes : (s : Text) → All (λ b. b < 256) (spread s)
unfolding spread
spread-bytes [] = tt
spread-bytes (c ∷ s) = (omega arith, (omega arith, spread-bytes s))

pair_fits : (c d : ℕ) → is_high c ≡ true → is_low d ≡ true → (c < 65536) × (d < 65536)
pair_fits c d h l = (ground arith, ground arith)

gather-spread : {s : Text} → IsPrinted s → gather (spread s) ≡ s
unfolding gather spread
gather-spread nil = refl
gather-spread (unit {c} {s} l u n t) =
    let e : (c / 256) % 256 * 256 + c % 256 ≡ c = omega arith in rw (e, gather-spread t)
gather-spread (pair {c} {d} {s} h l t) =
    let (x, y) = pair_fits c d h l in
    let e : (c / 256) % 256 * 256 + c % 256 ≡ c = omega arith in
    let f : (d / 256) % 256 * 256 + d % 256 ≡ d = omega arith in rw (e, f, gather-spread t)

toy-bytes : (s : Text) → All (λ b. b < 256) (toy_deflate s)
unfolding toy_deflate
toy-bytes s = elim (Bool-cases (text_eq s known)) [
  | inl y ↦ rw y (omega arith, tt)
  | inr n ↦ rw n (omega arith, spread-bytes s)
]

toy-inflates : (s : Text) → IsPrinted s → toy_inflate (toy_deflate s) ≡ some s
unfolding toy_deflate toy_inflate
toy-inflates s t = elim (Bool-cases (text_eq s known)) [
  | inl y ↦ let e = (text_eq_iff s known).0 y in rw y (ap (λ x. some x) (sym e))
  | inr n ↦ rw n (ap (λ x. some x) (gather-spread t))
]

pub toy-IsZlib : IsZlib toy
unfolding toy
toy-IsZlib = record { bytes = toy-bytes; inflates = toy-inflates }
