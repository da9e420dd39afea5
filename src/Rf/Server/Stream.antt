-- ===== src/Rf/Server/Stream.antt =====
-- src/heads/rf/server.ts, whatever the chunks of the socket.
use pdn_whatspac_client.Base.{
  ℕ, ◌+◌, ◌≡◌, refl, sym, ap, ◌∙◌, inl, inr, Bool, true, false, Option-cases, Option, none, some,
  List, [], ◌∷◌, ◌++◌, append-nil, append_assoc, map, Text, length, drop-append_left,
  take-append_left, take, drop, index_of, arith,
}
use pdn_whatspac_client.Base.Chunks.{join}
use pdn_whatspac_client.Base.Splits.{split, NotIn, split-NotIn, split-append, tail-NotIn}
use pdn_whatspac_client.Base.Find.{index_of-fits, index_of-append}
use pdn_whatspac_client.Rf.Server.{
  Connection, Action, start, feed_line, strip_cr, feed_lines, ends_at, divided, begin, with_header,
  on_data, run,
}
use pdn_whatspac_client.Rf.Server.Lines.{pull_lines-split}

-- The buffer of a session holds no complete line.
abbrev pub IsWaiting : Connection → Type 0
IsWaiting c = c.session ≡ true → NotIn 10 c.buffer

abbrev fed : List Text → List Action
fed lines = map (λ l. feed_line (strip_cr l)) lines

abbrev shown : Text → List Text × Text → Connection × List Action
shown h q = (record { buffer = q.1; header = some h; session = true }, fed q.0)

feed_lines-split :
    (b h : Text)
    → feed_lines (record { buffer = b; header = some h; session = true }) ≡ shown h (split 10 [] b)
feed_lines-split b h = ap (shown h) (pull_lines-split (length b) b (omega arith))

-- One call after another.
abbrev and_then :
    Connection × List Action → (Connection → Connection × List Action) → Connection × List Action
and_then (c, actions) f = let (d, more) = f c in (d, actions ++ more)

fed-append : (xs ys : List Text) → fed (xs ++ ys) ≡ fed xs ++ fed ys
fed-append [] ys = refl
fed-append (x ∷ xs) ys = ap (◌∷◌ (feed_line (strip_cr x))) (fed-append xs ys)

split-rest : (b d : Text) → split 10 [] ((split 10 [] b).1 ++ d) ≡ split 10 (split 10 [] b).1 d
split-rest b d =
    let t = (split 10 [] b).1 in
    split-append 10 t d [] ∙ rw (split-NotIn 10 t [] (tail-NotIn 10 b [] tt))

abbrev after : List Action → Connection × List Action → Connection × List Action
after actions (c, more) = (c, actions ++ more)

module _ (starts : Text → Bool) (sure : (t : Text) → starts t ≡ true) where
  -- In a session.
  session-append :
      (b d : Text) (h : Text)
      → and_then
          (feed_lines (record { buffer = b; header = some h; session = true }))
          (on_data starts d)
        ≡ feed_lines (record { buffer = b ++ d; header = some h; session = true })
  unfolding on_data
  session-append b d h =
      let first = split 10 [] b in
      let then_ = split 10 first.1 d in
      ap (λ p. and_then p (on_data starts d)) (feed_lines-split b h)
      ∙ ap (after (fed first.0)) (feed_lines-split (first.1 ++ d) h ∙ ap (shown h) (split-rest b d))
      ∙ ap (λ a. (record { buffer = then_.1; header = some h; session = true }, a))
          (sym (fed-append first.0 then_.0))
      ∙ sym (feed_lines-split (b ++ d) h ∙ ap (shown h) (split-append 10 b d []))

  begin-append :
      (h b d : Text) → and_then (begin starts h b) (on_data starts d) ≡ begin starts h (b ++ d)
  begin-append h b d = rw (sure h) (ap (after (start h ∷ [])) (session-append b d h))

  abbrev at_none : Text → Bool → Option ℕ → Connection × List Action
  at_none b s o = divided starts (ends_at o) (record { buffer = b; header = none; session = s })

  -- Before the header has ended.
  waiting-append :
      (b d : Text) (s : Bool)
      → and_then (at_none b s (index_of b (10 ∷ 10 ∷ []))) (on_data starts d)
        ≡ at_none (b ++ d) s (index_of (b ++ d) (10 ∷ 10 ∷ []))
  waiting-append b d s = elim (Option-cases (index_of b (10 ∷ 10 ∷ []))) [
    | inl e ↦ ap (λ o. and_then (at_none b s o) (on_data starts d)) e ∙ (unfold on_data in refl)
    | inr (k, e) ↦
        let cut : drop (k + 2) (b ++ d) ≡ drop (k + 2) b ++ d =
          drop-append_left (k + 2) b d (index_of-fits b (10 ∷ 10 ∷ []) k e) in
        let same : take k (b ++ d) ≡ take k b =
          take-append_left k b d (omega (arith, index_of-fits b (10 ∷ 10 ∷ []) k e)) in
        ap (λ o. and_then (at_none b s o) (on_data starts d)) e
        ∙ begin-append (take k b) (drop (k + 2) b) d
        ∙ sym (
            ap (at_none (b ++ d) s) (index_of-append b (10 ∷ 10 ∷ []) d k e)
            ∙ ap (begin starts (take k (b ++ d))) cut
            ∙ ap (λ h. begin starts h (drop (k + 2) b ++ d)) same)
  ]

  later-append :
      (h : Option Text) (b c d : Text) (s : Bool)
      → and_then
          (with_header starts h (record { buffer = b ++ c; header = h; session = s }))
          (on_data starts d)
        ≡ with_header starts h (record { buffer = b ++ (c ++ d); header = h; session = s })
  later-append none b c d s =
      waiting-append (b ++ c) d s
      ∙ ap (λ x. at_none x s (index_of x (10 ∷ 10 ∷ []))) (append_assoc b c d)
  later-append (some h) b c d true =
      session-append (b ++ c) d h
      ∙ ap (λ x. feed_lines (record { buffer = x; header = some h; session = true }))
          (append_assoc b c d)
  later-append (some h) b c d false =
      unfold on_data in
      ap (λ x. (record { buffer = x; header = some h; session = false }, [])) (append_assoc b c d)

  on_data-opens :
      (c : Text) (s : Connection)
      → on_data starts c s ≡ with_header starts s.header (record s { buffer = s.buffer ++ c })
  unfolding on_data
  on_data-opens c s = refl

  -- Two chunks do what both in one do.
  on_data-append :
      (c d : Text) (s : Connection)
      → and_then (on_data starts c s) (on_data starts d) ≡ on_data starts (c ++ d) s
  on_data-append c d s =
      ap (λ p. and_then p (on_data starts d)) (on_data-opens c s)
      ∙ later-append s.header s.buffer c d s.session
      ∙ sym (on_data-opens (c ++ d) s)

run-cons :
    (starts : Text → Bool) (c : Text) (chunks : List Text) (s : Connection)
    → run starts (c ∷ chunks) s
      ≡ after (on_data starts c s).1 (run starts chunks (on_data starts c s).0)
unfolding run
run-cons starts c chunks s = refl

-- Where the session's start does not throw, how the socket cuts the text into chunks does not matter:
-- the header is taken, the session is started and its lines are fed as from one chunk.
pub run-join :
    (starts : Text → Bool) (sure : (t : Text) → starts t ≡ true) (c : Text) (chunks : List Text)
    (s : Connection)
    → run starts (c ∷ chunks) s ≡ on_data starts (c ++ join chunks) s
run-join starts sure c [] s =
    unfold run in
    ap (λ a. ((on_data starts c s).0, a)) (append-nil (on_data starts c s).1)
    ∙ ap (λ x. on_data starts x s) (sym (append-nil c))
run-join starts sure c (d ∷ chunks) s =
    run-cons starts c (d ∷ chunks) s
    ∙ ap (after (on_data starts c s).1) (run-join starts sure d chunks (on_data starts c s).0)
    ∙ on_data-append starts sure c (d ++ join chunks) s
