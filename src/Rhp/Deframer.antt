-- ===== src/Rhp/Deframer.antt =====
-- `FrameDeframer` of src/rhp/wire.ts: the frames of a TCP stream, whatever its chunks.
pub mod Stream
pub mod Chunking
use pdn_whatspac_client.Base.{
  ℕ, zero, suc, ◌+◌, ◌-◌, ◌*◌, true, false, List, [], ◌∷◌, ◌++◌, Bytes, length, get_or, take, drop,
  ltb, leb, if◌then◌else◌,
}

-- `a.slice(from, to)` of a `Uint8Array`, within its bounds.
abbrev pub slice : Bytes → ℕ → ℕ → Bytes
slice a from to = take (to - from) (drop from a)

-- `(buf[offset] << 8) | buf[offset + 1]`, on bytes.
abbrev pub length_at : Bytes → ℕ → ℕ
length_at buf offset = get_or buf offset 0 * 256 + get_or buf (offset + 1) 0

-- The `while` loop of `push`: the frames so far and the final offset. Each round takes two bytes
-- at least, so the length of the buffer is enough fuel.
unfoldable pub pull : ℕ → Bytes → ℕ → List Bytes → List Bytes × ℕ
pull zero buf offset frames = (frames, offset)
pull (suc fuel) buf offset frames = elim (leb 2 (length buf - offset)) [
  | false ↦ (frames, offset)
  | true ↦ elim (ltb (length buf - offset - 2) (length_at buf offset)) [
    | true ↦ (frames, offset)
    | false ↦
        pull fuel buf (offset + (2 + length_at buf offset))
          (frames ++ slice buf (offset + 2) (offset + 2 + length_at buf offset) ∷ [])
  ]
]

-- The pending bytes after a chunk has arrived.
unfoldable pub merge : Bytes → Bytes → Bytes
merge buf [] = buf
merge [] chunk = chunk
merge buf chunk = buf ++ chunk

-- `if (offset > 0) this.#buf = this.#buf.slice(offset)`.
abbrev pub kept : ℕ → Bytes → Bytes
kept offset merged = if ltb 0 offset then drop offset merged else merged

-- `push`: the complete frame bodies, and the new `#buf`.
unfoldable pub push : Bytes → Bytes → List Bytes × Bytes
push buf chunk =
    let merged = merge buf chunk in
    let (frames, offset) = pull (length merged) merged 0 [] in (frames, kept offset merged)
