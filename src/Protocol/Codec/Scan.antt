-- ===== src/Protocol/Codec/Scan.antt =====
-- The reader's loop over indices decodes the pieces between the terminators.
use pdn_whatspac_client.Base.{
  ℕ, zero, suc, ◌+◌, ◌-◌, ◌<◌, ◌≤◌, ◌≡◌, refl, sym, ap, ◌∙◌, inl, inr, true, false, List, [], ◌∷◌,
  ◌++◌, append-nil, append_assoc, Bytes, length, take, drop, drop-append_self, length-append,
  length-take, length-drop, drop-drop, ltb, ◌==◌, if◌then◌else◌, Bool-cases, arith,
}
use mathlib.Core.Path.{fun_ext}
use pdn_whatspac_client.Base.Splits.{split, split-here, split-on, tail-suffix}
use pdn_whatspac_client.Protocol.Pako.{Pako}
use pdn_whatspac_client.Protocol.Framing.{terminator}
use pdn_whatspac_client.Protocol.Codec.{
  Result, ok, err, ◌>>=◌, WpsMessage, decode_frame, scan, combine, push,
}

-- The messages of the pieces that are not empty, or the first error.
unfoldable pub decode_all : Pako → List Bytes → Result (List WpsMessage)
decode_all pako [] = ok []
decode_all pako ([] ∷ ps) = decode_all pako ps
decode_all pako ((b ∷ p) ∷ ps) = do
  m ← decode_frame pako (b ∷ p)
  ms ← decode_all pako ps
  ok (m ∷ ms)

take-suc :
    (n : ℕ) (d : Bytes) (b : ℕ) (r : Bytes) → drop n d ≡ b ∷ r → take (suc n) d ≡ take n d ++ b ∷ []
take-suc zero [] b r e = cc
take-suc zero (x ∷ d) b r e = cc
take-suc (suc n) [] b r e = cc
take-suc (suc n) (x ∷ d) b r e = ap (◌∷◌ x) (take-suc n d b r e)

abbrev found : List WpsMessage → ℕ → List WpsMessage → Result (List WpsMessage × ℕ)
found messages n ms = ok (messages ++ ms, n)

-- What the loop gives, by the pieces.
abbrev outcome : Pako → List WpsMessage → ℕ → List Bytes × Bytes → Result (List WpsMessage × ℕ)
outcome pako messages n (ps, tail) = decode_all pako ps >>= found messages (n - length tail)

bind_outcome :
    (messages : List WpsMessage) (n : ℕ) (r : Result WpsMessage) (q : Result (List WpsMessage))
    → (r >>= λ m. q >>= found (messages ++ m ∷ []) n)
      ≡ ((r >>= λ m. q >>= λ ms. ok (m ∷ ms)) >>= found messages n)
bind_outcome messages n (ok m) (ok ms) = rw append_assoc
bind_outcome messages n (ok m) (err e) = refl
bind_outcome messages n (err e) q = refl

pub decode_all_piece :
    (pako : Pako) (p : Bytes) (ps : List Bytes)
    → 0 < length p
    → decode_all pako (p ∷ ps)
      ≡ (decode_frame pako p >>= λ m. decode_all pako ps >>= λ ms. ok (m ∷ ms))
unfolding decode_all
decode_all_piece pako [] ps h = elim h [ ]
decode_all_piece pako (b ∷ p) ps h = refl

module _ (pako : Pako) (c : Bytes) where
  scan_on :
      (b : ℕ) (rest : Bytes) (i start : ℕ) (messages : List WpsMessage)
      → (b == terminator) ≡ false
      → scan pako c (b ∷ rest) i start messages ≡ scan pako c rest (i + 1) start messages
  unfolding scan
  scan_on b rest i start messages h = rw h

  scan_empty :
      (b : ℕ) (rest : Bytes) (i start : ℕ) (messages : List WpsMessage)
      → (b == terminator) ≡ true
      → ltb start i ≡ false
      → scan pako c (b ∷ rest) i start messages ≡ scan pako c rest (i + 1) (i + 1) messages
  unfolding scan
  scan_empty b rest i start messages h l = rw (h, l)

  scan_piece :
      (b : ℕ) (rest : Bytes) (i start : ℕ) (messages : List WpsMessage)
      → (b == terminator) ≡ true
      → ltb start i ≡ true
      → scan pako c (b ∷ rest) i start messages ≡ (
          decode_frame pako (take (i - start) (drop start c)) >>= λ m.
          scan pako c rest (i + 1) (i + 1) (messages ++ m ∷ []))
  unfolding scan
  scan_piece b rest i start messages h l = rw (h, l)

  -- The bytes read since `start`, and one more.
  longer :
      (b : ℕ) (rest : Bytes) (i start : ℕ)
      → drop i c ≡ b ∷ rest
      → start ≤ i
      → take (i + 1 - start) (drop start c) ≡ take (i - start) (drop start c) ++ b ∷ []
  longer b rest i start e l =
      let k : i + 1 - start ≡ suc (i - start) = omega arith in
      rw k (
        take-suc (i - start) (drop start c) b rest
          (drop-drop start (i - start) i c (omega arith) ∙ e))

  dropped : (b : ℕ) (rest : Bytes) (i : ℕ) → drop i c ≡ b ∷ rest → drop (i + 1) c ≡ rest
  dropped b rest i e = sym (drop-drop i 1 (i + 1) c refl) ∙ ap (drop 1) e

  nothing_yet : (i : ℕ) → take (i + 1 - (i + 1)) (drop (i + 1) c) ≡ []
  nothing_yet i = let k : i + 1 - (i + 1) ≡ 0 = omega arith in rw k

  scan-split :
      (rest : Bytes) (i start : ℕ) (messages : List WpsMessage)
      → drop i c ≡ rest
      → start ≤ i
      → i + length rest ≡ length c
      → scan pako c rest i start messages
        ≡ outcome pako messages (length c) (split terminator (take (i - start) (drop start c)) rest)
  scan-split [] i start messages e l n =
      let k : length c - length (take (i - start) (drop start c)) ≡ start =
        omega (arith, length-take (i - start) (drop start c), length-drop start c) in
      unfold scan split decode_all in rw (append-nil, k)
  scan-split (b ∷ rest) i start messages e l n = elim (Bool-cases (b == terminator)) [
    | inr h ↦
        scan_on b rest i start messages h
        ∙ scan-split rest (i + 1) start messages (dropped b rest i e) (omega arith) (omega arith)
        ∙ rw (
          longer b rest i start e l,
          split-on terminator (take (i - start) (drop start c)) rest b h,
        )
    | inl h ↦ elim (Bool-cases (ltb start i)) [
      | inr z ↦
          let k : i - start ≡ 0 = ground arith in
          scan_empty b rest i start messages h z
          ∙ scan-split rest (i + 1) (i + 1) messages (dropped b rest i e) (omega arith)
              (omega arith)
          ∙ rw (nothing_yet i, split-here terminator (take (i - start) (drop start c)) rest b h, k)
              (unfold decode_all in refl)
      | inl z ↦
          let cur = take (i - start) (drop start c) in
          let (ps, tail) = split terminator [] rest in
          scan_piece b rest i start messages h z
          ∙ ap (λ k. decode_frame pako cur >>= k)
              (fun_ext λ m.
                scan-split rest (i + 1) (i + 1) (messages ++ m ∷ []) (dropped b rest i e)
                  (omega arith) (omega arith)
                ∙ rw (nothing_yet i))
          ∙ bind_outcome messages (length c - length tail) (decode_frame pako cur)
              (decode_all pako ps)
          ∙ rw (
            split-here terminator cur rest b h,
            decode_all_piece pako cur ps
                (ground (arith, length-take (i - start) (drop start c), length-drop start c)),
          )
    ]
  ]

-- `push` by the pieces: the new buffer is the last one, which no terminator has ended.
abbrev pub taken : Pako → List Bytes × Bytes → Result (List WpsMessage × Bytes)
taken pako (ps, tail) = decode_all pako ps >>= λ ms. ok (ms, tail)

combine-eq : (buffer chunk : Bytes) → combine buffer chunk ≡ buffer ++ chunk
combine-eq [] chunk = refl
combine-eq (b ∷ buffer) chunk = refl

-- The buffer that the reader keeps is the last piece.
kept_tail :
    (w : Bytes)
    → (let tail = (split terminator [] w).1 in
        (if ltb (length w - length tail) (length w) then drop (length w - length tail) w else [])
        ≡ tail)
kept_tail w =
    let (pre, e) = tail-suffix terminator w [] in
    let tail = (split terminator [] w).1 in
    let n : length w - length tail ≡ length pre =
      omega (arith, ap length e, length-append pre tail) in
    rw n (elim (Bool-cases (ltb (length pre) (length w))) [
      | inl h ↦ rw h (ap (drop (length pre)) e ∙ drop-append_self pre tail)
      | inr h ↦
          rw h (sym (nil_of_length tail (ground (arith, ap length e, length-append pre tail))))
    ])
  where
    nil_of_length : (t : Bytes) → length t ≤ 0 → t ≡ []
    nil_of_length [] l = refl
    nil_of_length (x ∷ t) l = absurd (omega arith)

finished :
    (n : ℕ) (keep : ℕ → Bytes) (q : Result (List WpsMessage))
    → ◌≡◌ {A = Result (List WpsMessage × Bytes)}
        ((q >>= found [] n) >>= λ x. ok (x.0, keep x.1))
        (q >>= λ ms. ok (ms, keep n))
finished n keep (ok ms) = refl
finished n keep (err e) = refl

pub push-split :
    (pako : Pako) (buffer chunk : Bytes)
    → push pako buffer chunk ≡ taken pako (split terminator [] (buffer ++ chunk))
unfolding push
push-split pako buffer chunk =
    let w = buffer ++ chunk in
    let (ps, tail) = split terminator [] w in
    let keep : ℕ → Bytes = λ n. if ltb n (length w) then drop n w else [] in
    rw (combine-eq, scan-split pako w w 0 0 [] refl (omega arith) (omega arith))
      (finished (length w - length tail) keep (decode_all pako ps)
        ∙ ap (λ t. decode_all pako ps >>= λ ms. ok (ms, t)) (kept_tail w))
