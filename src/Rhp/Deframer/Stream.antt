-- ===== src/Rhp/Deframer/Stream.antt =====
-- The deframer of src/rhp/wire.ts against the frames that were written.
use pdn_whatspac_client.Base.{
  ℕ, zero, suc, ◌+◌, ◌-◌, ◌<◌, ◌≤◌, ◌≡◌, refl, sym, ap, ◌∙◌, ◌⊎◌, List, [], ◌∷◌, ◌++◌, append-nil,
  append_assoc, Bytes, length, get_or, drop, length-append, length-drop, take-append_self,
  drop-append_self, drop-drop, All, arith,
}
use pdn_whatspac_client.Rhp.Wire.{framed, max_payload_length}
use pdn_whatspac_client.Rhp.Deframer.{length_at, slice, pull, merge, kept, push}

-- The stream that carries these bodies.
abbrev pub wire : List Bytes → Bytes
wire [] = []
wire (b ∷ bs) = framed b ++ wire bs

-- No complete frame stands at the front.
abbrev pub IsPartial : Bytes → Type 0
IsPartial r = (length r < 2) ⊎ (length r < 2 + length_at r 0)

abbrev pub FitsFrame : Bytes → Type 0
FitsFrame b = length b ≤ max_payload_length

get_or-drop : (i j k : ℕ) (buf : Bytes) → i + j ≡ k → get_or buf k 0 ≡ get_or (drop i buf) j 0
get_or-drop zero zero zero buf e = refl
get_or-drop zero zero (suc k) buf e = absurd (omega arith)
get_or-drop zero (suc j) zero buf e = absurd (omega arith)
get_or-drop zero (suc j) (suc k) [] e = refl
get_or-drop zero (suc j) (suc k) (x ∷ buf) e = get_or-drop zero j k buf (omega arith)
get_or-drop (suc i) j zero buf e = absurd (omega arith)
get_or-drop (suc i) zero (suc k) [] e = refl
get_or-drop (suc i) (suc j) (suc k) [] e = refl
get_or-drop (suc i) j (suc k) (x ∷ buf) e = get_or-drop i j k buf (omega arith)

length_at-drop : (offset : ℕ) (buf : Bytes) → length_at buf offset ≡ length_at (drop offset buf) 0
length_at-drop offset buf =
    cc (get_or-drop offset 0 offset buf (omega arith), get_or-drop offset 1 (offset + 1) buf refl)

-- One round of the loop.
pull_stops :
    (fuel : ℕ) (buf : Bytes) (offset : ℕ) (frames : List Bytes)
    → IsPartial (drop offset buf)
    → pull fuel buf offset frames ≡ (frames, offset)
unfolding pull
pull_stops zero buf offset frames p = refl
pull_stops (suc f) buf offset frames p =
    ground (arith, length-drop offset buf, length_at-drop offset buf)

module _ (buf b rest : Bytes) (offset : ℕ) (e : drop offset buf ≡ framed b ++ rest)
    (fit : FitsFrame b) where
  length_at_frame : length_at buf offset ≡ length b
  length_at_frame = length_at-drop offset buf ∙ rw e (omega arith)

  slice_frame : slice buf (offset + 2) (offset + 2 + length b) ≡ b
  slice_frame =
      let k : offset + 2 + length b - (offset + 2) ≡ length b = omega arith in
      rw (k, ← drop-drop offset 2 (offset + 2) buf refl, e) (take-append_self b rest)

  room_frame : length buf - offset ≡ 2 + length b + length rest
  room_frame = omega (arith, length-drop offset buf, ap length e, length-append b rest)

  drop_frame : drop (offset + (2 + length b)) buf ≡ rest
  drop_frame =
      sym (drop-drop offset (2 + length b) (offset + (2 + length b)) buf refl)
      ∙ rw e (
          sym (drop-drop 2 (length b) (2 + length b) (framed b ++ rest) refl)
          ∙ drop-append_self b rest)

  pull_frame :
      (fuel : ℕ) (frames : List Bytes)
      → pull (suc fuel) buf offset frames
        ≡ pull fuel buf (offset + (2 + length b)) (frames ++ b ∷ [])
  unfolding pull
  pull_frame fuel frames = ground (arith, length_at_frame, slice_frame, room_frame)

length-wire_cons :
    (b : Bytes) (bs : List Bytes) → length (wire (b ∷ bs)) ≡ 2 + length b + length (wire bs)
length-wire_cons b bs = omega (arith, length-append b (wire bs))

pull-wire :
    (bs : List Bytes) (r : Bytes) (fuel : ℕ) (buf : Bytes) (offset : ℕ) (frames : List Bytes)
    → drop offset buf ≡ wire bs ++ r
    → length buf < offset + suc fuel
    → All FitsFrame bs
    → IsPartial r
    → pull fuel buf offset frames ≡ (frames ++ bs, offset + length (wire bs))
pull-wire [] r fuel buf offset frames e f fit p =
    ground (arith, pull_stops fuel buf offset frames (rw e p), append-nil frames)
pull-wire (b ∷ bs) r zero buf offset frames e f fit p =
    absurd (omega (arith, length-drop offset buf, ap length e))
pull-wire (b ∷ bs) r (suc fuel) buf offset frames e f fit p =
    let e' : drop offset buf ≡ framed b ++ (wire bs ++ r) =
      rw e (append_assoc (framed b) (wire bs) r) in
    pull_frame buf b (wire bs ++ r) offset e' fit.0 fuel frames
    ∙ pull-wire bs r fuel buf (offset + (2 + length b)) (frames ++ b ∷ [])
        (drop_frame buf b (wire bs ++ r) offset e' fit.0) (omega arith) fit.1 p
    ∙ ground (arith, append_assoc frames (b ∷ []) bs, length-wire_cons b bs)

merge-eq : (buf chunk : Bytes) → merge buf chunk ≡ buf ++ chunk
unfolding merge
merge-eq buf [] = sym (append-nil buf)
merge-eq [] (c ∷ cs) = refl
merge-eq (b ∷ bs) (c ∷ cs) = refl

kept-wire : (bs : List Bytes) (r : Bytes) → kept (length (wire bs)) (wire bs ++ r) ≡ r
kept-wire [] r = refl
kept-wire (b ∷ bs) r = ground (arith, drop-append_self (wire (b ∷ bs)) r)

-- Pushing the bytes that complete the frames of `bs` gives those bodies, and keeps the rest.
pub push-wire :
    (buf chunk : Bytes) (bs : List Bytes) (r : Bytes)
    → buf ++ chunk ≡ wire bs ++ r
    → All FitsFrame bs
    → IsPartial r
    → push buf chunk ≡ (bs, r)
unfolding push
push-wire buf chunk bs r e fit p =
    let whole : merge buf chunk ≡ wire bs ++ r = merge-eq buf chunk ∙ e in
    let zero_add : 0 + length (wire bs) ≡ length (wire bs) = omega arith in
    rw (pull-wire bs r (length (merge buf chunk)) (merge buf chunk) 0 [] whole (omega arith) fit p)
      (rw (zero_add, whole, kept-wire bs r))
