-- ===== src/Protocol/Codec/RoundTrip.antt =====
-- The messages that were framed come out of the reader, however the link cuts the stream.
use pdn_whatspac_client.Base.{
  ◌≡◌, ◌≢◌, refl, sym, ap, ◌∙◌, true, false, List, [], ◌∷◌, ◌++◌, map, append-nil, append_assoc,
  Bytes, All, All-map, length-pos, codes, ◌==◌, arith,
}
use pdn_whatspac_client.Base.Chunks.{join}
use pdn_whatspac_client.Base.Splits.{
  split, NotIn, split-append, split-NotIn, split-piece, tail-NotIn,
}
use pdn_whatspac_client.Js.Json.{obj, get}
use pdn_whatspac_client.Js.Json.Writer.{write, stringify}
use pdn_whatspac_client.Js.Json.Parser.RoundTrip.{AreFields, parse-stringify}
use pdn_whatspac_client.Js.Json.Printed.{stringify-IsPrinted}
use pdn_whatspac_client.Js.Utf8.RoundTrip.{NoMark, IsPrintedByte}
use pdn_whatspac_client.Protocol.Pako.{Pako, IsZlib}
use pdn_whatspac_client.Protocol.Framing.{terminator, encode_payload}
use pdn_whatspac_client.Protocol.Framing.RoundTrip.{
  decode_payload_text-encode_payload, encode_payload-bytes, encode_payload-ne-nil,
}
use pdn_whatspac_client.Protocol.Codec.{
  Result, ok, err, ◌>>=◌, WpsMessage, encode_frame, is_string, as_message, decode_frame, push,
}
use pdn_whatspac_client.Protocol.Codec.Scan.{decode_all, decode_all_piece, taken, push-split}

-- `push` on one chunk after the other, up to the first error.
unfoldable pub read_all : Pako → Bytes → List Bytes → Result (List WpsMessage × Bytes)
read_all pako buffer [] = ok ([], buffer)
read_all pako buffer (c ∷ cs) = do
  (ms, kept) ← push pako buffer c
  (more, last) ← read_all pako kept cs
  ok (ms ++ more, last)

-- The rest of a run behind the messages `ms`.
abbrev after : List WpsMessage → List WpsMessage × Bytes → Result (List WpsMessage × Bytes)
after ms x = ok (ms ++ x.0, x.1)

abbrev with_tail : Result (List WpsMessage) → Bytes → Result (List WpsMessage × Bytes)
with_tail q tail = q >>= λ ms. ok (ms, tail)

abbrev both : Result (List WpsMessage) → Result (List WpsMessage) → Result (List WpsMessage)
both q r = q >>= λ a. r >>= λ b. ok (a ++ b)

both_nil : (r : Result (List WpsMessage)) → both (ok []) r ≡ r
both_nil (ok b) = refl
both_nil (err e) = refl

both_cons :
    (r : Result WpsMessage) (p q : Result (List WpsMessage))
    → (r >>= λ m. both p q >>= λ ms. ok (m ∷ ms)) ≡ both (r >>= λ m. p >>= λ ms. ok (m ∷ ms)) q
both_cons (ok m) (ok a) (ok b) = refl
both_cons (ok m) (ok a) (err e) = refl
both_cons (ok m) (err e) q = refl
both_cons (err e) p q = refl

decode_all-append :
    (pako : Pako) (ps qs : List Bytes)
    → decode_all pako (ps ++ qs) ≡ both (decode_all pako ps) (decode_all pako qs)
unfolding decode_all
decode_all-append pako [] qs = sym (both_nil (decode_all pako qs))
decode_all-append pako ([] ∷ ps) qs = decode_all-append pako ps qs
decode_all-append pako ((b ∷ p) ∷ ps) qs =
    rw (decode_all-append pako ps qs)
      (both_cons (decode_frame pako (b ∷ p)) (decode_all pako ps) (decode_all pako qs))

split-resume :
    (tail s : Bytes)
    → NotIn terminator tail
    → split terminator [] (tail ++ s) ≡ split terminator tail s
split-resume tail s h = split-append terminator tail s [] ∙ rw (split-NotIn terminator tail [] h)

-- What two runs over the pieces make together.
two_runs :
    (q r : Result (List WpsMessage)) (tail last : Bytes)
    → (with_tail q tail >>= λ x. with_tail r last >>= after x.0) ≡ with_tail (both q r) last
two_runs (ok a) (ok b) tail last = refl
two_runs (ok a) (err e) tail last = refl
two_runs (err e) r tail last = refl

continued :
    (q : Result (List WpsMessage)) (tail : Bytes)
    (k : List WpsMessage × Bytes → Result (List WpsMessage × Bytes))
    (r : Result (List WpsMessage × Bytes))
    → ((ms : List WpsMessage) → k (ms, tail) ≡ (r >>= after ms))
    → (with_tail q tail >>= k) ≡ (with_tail q tail >>= λ x. r >>= after x.0)
continued (ok a) tail k r h = h a
continued (err e) tail k r h = refl

-- However the link cuts a stream of frames into chunks, the reader gives the messages, in order,
-- and keeps the bytes, of one push of the whole stream, or fails with the same error.
pub read_all-join :
    (pako : Pako) (cs : List Bytes) (buffer : Bytes)
    → NotIn terminator buffer
    → read_all pako buffer cs ≡ push pako buffer (join cs)
unfolding read_all
read_all-join pako [] buffer h = sym (
    push-split pako buffer []
    ∙ rw (append-nil, split-NotIn terminator buffer [] h) (unfold decode_all in refl))
read_all-join pako (c ∷ cs) buffer h =
    let (ps, tail) = split terminator [] (buffer ++ c) in
    let n = tail-NotIn terminator (buffer ++ c) [] tt in
    let (qs, last) = split terminator tail (join cs) in
    rw (push-split pako buffer c) (
      continued (decode_all pako ps) tail _ (taken pako (qs, last)) (λ ms.
        ap (λ r. r >>= after ms)
          (read_all-join pako cs tail n
            ∙ push-split pako tail (join cs)
            ∙ ap (taken pako) (split-resume tail (join cs) n)))
      ∙ two_runs (decode_all pako ps) (decode_all pako qs) tail last
      ∙ ap (λ r. with_tail r last) (sym (decode_all-append pako ps qs))
      ∙ ap (taken pako) (
          sym (split-append terminator (buffer ++ c) (join cs) [])
          ∙ ap (split terminator []) (append_assoc buffer c (join cs)))
      ∙ sym (push-split pako buffer (c ++ join cs)))

-- A message: an object with a string `t`, no field twice, and values that JSON text can hold.
abbrev pub IsMessage : WpsMessage → Type 0
IsMessage msg = AreFields msg × (is_string (get (codes "t") msg) ≡ true)

-- The stream that carries these messages.
unfoldable pub stream : Pako → List WpsMessage → Bytes
stream pako [] = []
stream pako (m ∷ ms) = encode_frame pako m ++ stream pako ms

module _ (pako : Pako) (zlib : IsZlib pako) where
  abbrev payload : WpsMessage → Bytes
  payload m = encode_payload pako (stringify (obj m))

  module _ (m : WpsMessage) (h : IsMessage m) where
    no_mark : NoMark (stringify (obj m))
    unfolding stringify write
    no_mark = omega arith

    -- Decoding the payload of a message gives back the message.
    pub decode_frame-payload : decode_frame pako (payload m) ≡ ok m
    unfolding decode_frame as_message
    decode_frame-payload = rw (
      decode_payload_text-encode_payload pako zlib (stringify (obj m))
          (stringify-IsPrinted (obj m) h.0) no_mark,
      parse-stringify (obj m) h.0,
      h.1,
    )

    payload-NotIn : NotIn terminator (payload m)
    payload-NotIn =
        All-map IsPrintedByte (λ b. (b == terminator) ≡ false) (payload m)
          (λ b p. ground (arith, p))
          (encode_payload-bytes pako zlib (stringify (obj m)) (stringify-IsPrinted (obj m) h.0))

    payload-ne-nil : payload m ≢ []
    payload-ne-nil =
        encode_payload-ne-nil pako zlib (stringify (obj m)) (stringify-IsPrinted (obj m) h.0)
          no_mark (unfold stringify write in (λ e. cc))

  split-stream :
      (ms : List WpsMessage) (r : Bytes)
      → All IsMessage ms
      → NotIn terminator r
      → split terminator [] (stream pako ms ++ r) ≡ (map payload ms, r)
  unfolding stream encode_frame
  split-stream [] r h n = split-NotIn terminator r [] n
  split-stream (m ∷ ms) r h n =
      ap (split terminator []) (
        append_assoc (payload m ++ terminator ∷ []) (stream pako ms) r
        ∙ append_assoc (payload m) (terminator ∷ []) (stream pako ms ++ r))
      ∙ split-piece terminator (payload m) (stream pako ms ++ r) (payload-NotIn m h.0)
      ∙ rw (split-stream ms r h.1 n)

  decode_all-payload :
      (ms : List WpsMessage) → All IsMessage ms → decode_all pako (map payload ms) ≡ ok ms
  decode_all-payload [] h = unfold decode_all in refl
  decode_all-payload (m ∷ ms) h =
      decode_all_piece pako (payload m) (map payload ms)
        (length-pos (payload m) (payload-ne-nil m h.0))
      ∙ rw (decode_frame-payload m h.0, decode_all-payload ms h.1)

  -- Messages that JSON text can hold were framed, with an unfinished frame behind them, and pako
  -- keeps zlib's promise. However the stream is cut, the reader gives the messages once each and in
  -- order, and keeps the unfinished frame.
  pub read_all-stream :
      (ms : List WpsMessage) (r : Bytes) (cs : List Bytes)
      → All IsMessage ms
      → NotIn terminator r
      → join cs ≡ stream pako ms ++ r
      → read_all pako [] cs ≡ ok (ms, r)
  read_all-stream ms r cs h n e =
      read_all-join pako cs [] tt
      ∙ push-split pako [] (join cs)
      ∙ ap (λ w. taken pako (split terminator [] w)) e
      ∙ rw (split-stream ms r h n, decode_all-payload ms h)
