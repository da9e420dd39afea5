-- ===== src/Protocol/Pako.antt =====
-- The package pako, which src/protocol/framing.ts calls: zlib compression of a string.
use pdn_whatspac_client.Base.{◌<◌, ◌≡◌, Option, some, Text, Bytes, All}
use pdn_whatspac_client.Js.Utf8.RoundTrip.{IsPrinted}

pub record Pako : Type 0 where
  -- `pako.deflate(s, { level: 6 })`.
  pub deflate : Text → Bytes
  -- `pako.inflate(bytes, { to: "string" })`, with `none` where it throws.
  pub inflate : Bytes → Option Text

-- What zlib promises: bytes come out, and inflating them gives the string back.
pub record IsZlib (p : Pako) : Type 0 where
  pub bytes : (s : Text) → All (λ b. b < 256) (p.deflate s)
  pub inflates : (s : Text) → IsPrinted s → p.inflate (p.deflate s) ≡ some s
