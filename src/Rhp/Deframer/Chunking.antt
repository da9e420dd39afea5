-- ===== src/Rhp/Deframer/Chunking.antt =====
-- The deframer's output does not depend on how TCP cuts the stream.
use pdn_whatspac_client.Base.{
  ℕ, zero, suc, ◌+◌, ◌*◌, ◌/◌, ◌%◌, ◌<◌, ◌≤◌, ◌≡◌, refl, sym, ap, subst, ◌∙◌, inl, inr, List, [],
  ◌∷◌, ◌++◌, append-nil, append_assoc, Bytes, length, take, drop, length-take, length-drop,
  take-append-drop, All, All-append, All-drop, leb, Bool-cases, arith,
}
use pdn_whatspac_client.Base.Chunks.{feed, join, Every, IsSplitter, feed-join}
use pdn_whatspac_client.Rhp.Wire.{framed}
use pdn_whatspac_client.Rhp.Wire.Latin1.{IsBytes}
use pdn_whatspac_client.Rhp.Deframer.{push}
use pdn_whatspac_client.Rhp.Deframer.Stream.{wire, IsPartial, FitsFrame, push-wire}

-- A stream of bytes as frames and a partial one.
record Frames (s : Bytes) : Type 0 where
  bodies : List Bytes
  rest : Bytes
  stream : s ≡ wire bodies ++ rest
  fits : All FitsFrame bodies
  partial : IsPartial rest
  bytes : IsBytes rest

no_frames : (s : Bytes) → IsBytes s → IsPartial s → Frames s
no_frames s h p = record { bodies = []; rest = s; stream = refl; fits = tt; partial = p; bytes = h }

one_more : (b s : Bytes) → FitsFrame b → Frames s → Frames (framed b ++ s)
one_more b s fit f = record {
  bodies = b ∷ f.bodies;
  rest = f.rest;
  stream = ap (◌++◌ (framed b)) f.stream ∙ sym (append_assoc (framed b) (wire f.bodies) f.rest);
  fits = (fit, f.fits);
  partial = f.partial;
  bytes = f.bytes;
}

-- The header that two bytes and as many bytes as they say form.
split_frame :
    (hi lo : ℕ) (t : Bytes)
    → hi < 256
    → lo < 256
    → hi * 256 + lo ≤ length t
    → framed (take (hi * 256 + lo) t) ++ drop (hi * 256 + lo) t ≡ hi ∷ lo ∷ t
split_frame hi lo t h l fit =
    let n : length (take (hi * 256 + lo) t) ≡ hi * 256 + lo =
      omega (arith, length-take (hi * 256 + lo) t) in
    let a : (hi * 256 + lo) / 256 % 256 ≡ hi = omega arith in
    let b : (hi * 256 + lo) % 256 ≡ lo = omega arith in
    rw (n, a, b, take-append-drop (hi * 256 + lo) t)

frames : (n : ℕ) (s : Bytes) → length s ≤ n → IsBytes s → Frames s
frames n [] k h = no_frames [] h (inl (omega arith))
frames n (x ∷ []) k h = no_frames (x ∷ []) h (inl (omega arith))
frames zero (hi ∷ lo ∷ t) k h = absurd (omega arith)
frames (suc n) (hi ∷ lo ∷ t) k h = elim (Bool-cases (leb (hi * 256 + lo) (length t))) [
  | inl whole ↦
      let m : hi * 256 + lo ≤ length t = ground arith in
      subst Frames (split_frame hi lo t h.0 h.1.0 m) (
        one_more (take (hi * 256 + lo) t) (drop (hi * 256 + lo) t)
          (omega (arith, length-take (hi * 256 + lo) t))
          (frames n (drop (hi * 256 + lo) t) (omega (arith, length-drop (hi * 256 + lo) t))
            (All-drop (λ b. b < 256) (hi * 256 + lo) t h.1.1)))
  | inr part ↦ no_frames (hi ∷ lo ∷ t) h (inr (ground arith))
]

wire-append : (xs ys : List Bytes) → wire (xs ++ ys) ≡ wire xs ++ wire ys
wire-append [] ys = refl
wire-append (x ∷ xs) ys = rw (wire-append xs ys) (sym (append_assoc (framed x) (wire xs) (wire ys)))

-- What `#buf` holds between two calls.
abbrev pub IsPending : Bytes → Type 0
IsPending buf = IsPartial buf × IsBytes buf

abbrev IsByte : ℕ → Type 0
IsByte b = b < 256

module _ (buf c : Bytes) (k : IsPending buf) (hc : IsBytes c) where
  pushed : (f : Frames (buf ++ c)) × (push buf c ≡ (f.bodies, f.rest))
  pushed =
      let f =
        frames (length (buf ++ c)) (buf ++ c) (omega arith) (All-append IsByte buf c k.1 hc) in
      (f, push-wire buf c f.bodies f.rest f.stream f.fits f.partial)

  push-IsPending : IsPending (push buf c).1
  push-IsPending = let (f, e) = pushed in rw e (f.partial, f.bytes)

push-append :
    (buf c d : Bytes)
    → IsPending buf
    → IsBytes c
    → IsBytes d
    → push buf (c ++ d) ≡ ((push buf c).0 ++ (push (push buf c).1 d).0, (push (push buf c).1 d).1)
push-append buf c d k hc hd =
    let (f, e) = pushed buf c k hc in
    let (g, e') = pushed f.rest d (f.partial, f.bytes) hd in
    rw (e, e')
      (push-wire buf (c ++ d) (f.bodies ++ g.bodies) g.rest
        (sym (append_assoc buf c d)
          ∙ ap (λ x. x ++ d) f.stream
          ∙ append_assoc (wire f.bodies) f.rest d
          ∙ ap (◌++◌ (wire f.bodies)) g.stream
          ∙ sym (append_assoc (wire f.bodies) (wire g.bodies) g.rest)
          ∙ ap (λ x. x ++ g.rest) (sym (wire-append f.bodies g.bodies)))
        (All-append FitsFrame f.bodies g.bodies f.fits g.fits) g.partial)

deframer_laws : IsSplitter push IsPending IsBytes
deframer_laws = record {
  nothing = λ buf k. push-wire buf [] [] buf (append-nil buf) tt k.0;
  keeps = push-IsPending;
  cut = push-append;
}

join-IsBytes : (cs : List Bytes) → Every IsBytes cs → IsBytes (join cs)
join-IsBytes [] h = tt
join-IsBytes (c ∷ cs) h = All-append IsByte c (join cs) h.0 (join-IsBytes cs h.1)

-- However TCP cuts a stream of bytes into chunks, pushing them one by one from a partial frame
-- gives the bodies, in order, and leaves the buffer, of one push of the whole.
pub feed-push-join :
    (cs : List Bytes) (buf : Bytes)
    → IsPending buf
    → Every IsBytes cs
    → feed push buf cs ≡ push buf (join cs)
feed-push-join = feed-join deframer_laws join-IsBytes

-- The bodies that were framed and sent, each of 65535 bytes at most, come out once each and in
-- order, however the stream is cut, and nothing is left in the buffer.
pub feed-push-wire :
    (bs cs : List Bytes)
    → All FitsFrame bs
    → Every IsBytes cs
    → join cs ≡ wire bs
    → feed push [] cs ≡ (bs, [])
feed-push-wire bs cs fit h e =
    feed-push-join cs [] (inl (omega arith), tt) h
    ∙ push-wire [] (join cs) bs [] (e ∙ sym (append-nil (wire bs))) fit (inl (omega arith))
