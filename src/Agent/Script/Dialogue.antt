-- ===== src/Agent/Script/Dialogue.antt =====
-- The runner of src/agent/connectScript.ts against the dialogue that it is to hold.
use pdn_whatspac_client.Base.{
  ℕ, ◌+◌, ◌≡◌, ◌≢◌, refl, sym, ap, ◌∙◌, inl, inr, Bool, true, false, none, some, List, [], ◌∷◌,
  ◌++◌, append_assoc, Text, Bytes, length, take, drop, drop-drop, drop-append_left, length-append,
  subst, ◌↔◌, index_of, Option-cases, arith,
}
use pdn_whatspac_client.Base.Find.{index_of-fits, index_of-append, index_of-split, index_of_first}
use pdn_whatspac_client.Agent.Script.{
  Hop, ConnectScript, Action, on_done, Runner, new, start, command, latin1, stay, then_send,
  advance, feed,
}

-- The prompts of the hops occur in the text one behind the other, and `left` is what follows the
-- last.
pub data Holds (left : Text) : List Hop → Text → Type 0 where
  over : {s : Text} → s ≡ left → Holds left [] s
  prompt :
      {h : Hop} {hs : List Hop} {s : Text} (before behind : Text)
      → s ≡ before ++ (h.val ++ behind)
      → Holds left hs behind
      → Holds left (h ∷ hs) s

module _ (armed : Bool) where
  pub advance-waits :
      (h : Hop) (hs : List Hop) (i : ℕ) (s : Text)
      → index_of s h.val ≡ none
      → advance armed (h ∷ hs) i s ≡ stay armed i s
  unfolding advance
  advance-waits h [] i s e = rw (e, advance)
  advance-waits h (n ∷ hs) i s e = rw (e, advance)

  pub advance-over : (i : ℕ) (s : Text) → advance armed [] i s ≡ stay armed i s
  unfolding advance
  advance-over i s = refl

  pub advance-last :
      (h : Hop) (i k : ℕ) (s : Text)
      → index_of s h.val ≡ some k
      → advance armed (h ∷ []) i s ≡ (
        record {
          hop_index = i + 1;
          text = drop (k + length h.val) s;
          finished = true;
          armed = false;
        },
        on_done (latin1 (drop (k + length h.val) s)) ∷ [],
      )
  unfolding advance
  advance-last h i k s e = rw (e, advance)

  pub advance-next :
      (h n : Hop) (hs : List Hop) (i k : ℕ) (s : Text)
      → index_of s h.val ≡ some k
      → advance armed (h ∷ n ∷ hs) i s
        ≡ then_send (command n) (advance armed (n ∷ hs) (i + 1) (drop (k + length h.val) s))
  unfolding advance
  advance-next h n hs i k s e = rw (e, advance)

-- One call after another, the actions in order.
unfoldable pub and_then :
    Runner × List Action → (Runner → Runner × List Action) → Runner × List Action
and_then (r, actions) f = let (r2, more) = f r in (r2, actions ++ more)

drop-suc : {A : Type 0} (i : ℕ) (xs ys : List A) (x : A) → x ∷ ys ≡ drop i xs → ys ≡ drop (i + 1) xs
drop-suc i xs ys x e = ap (drop 1) e ∙ drop-drop i 1 (i + 1) xs refl

and_then-then_send :
    (b : Bytes) (p : Runner × List Action) (f : Runner → Runner × List Action)
    → and_then (then_send b p) f ≡ then_send b (and_then p f)
unfolding and_then
and_then-then_send b p f = refl

feed-stay :
    (script : ConnectScript) (armed : Bool) (hs : List Hop) (i : ℕ) (s u : Text)
    → hs ≡ drop i script
    → and_then (stay armed i s) (λ r. feed script r u) ≡ advance armed hs i (s ++ u)
unfolding and_then feed
feed-stay script armed hs i s u e = ap (λ xs. advance armed xs i (s ++ u)) (sym e)

pub feed-advance :
    (script : ConnectScript) (r : Runner) (c : Bytes)
    → r.finished ≡ false
    → feed script r c ≡ advance r.armed (drop r.hop_index script) r.hop_index (r.text ++ c)
unfolding feed
feed-advance script r c f = rw f

advance-append :
    (script : ConnectScript) (armed : Bool) (hs : List Hop) (i : ℕ) (s u : Text)
    → hs ≡ drop i script
    → (advance armed hs i s).0.finished ≡ false
    → and_then (advance armed hs i s) (λ r. feed script r u) ≡ advance armed hs i (s ++ u)
advance-append script armed [] i s u e h =
    rw (advance-over armed i s) (feed-stay script armed [] i s u e)
advance-append script armed (x ∷ []) i s u e h = elim (Option-cases (index_of s x.val)) [
  | inl n ↦ rw (advance-waits armed x [] i s n) (feed-stay script armed (x ∷ []) i s u e)
  | inr (k, m) ↦ cc (advance-last armed x i k s m, h)
]
advance-append script armed (x ∷ n ∷ hs) i s u e h = elim (Option-cases (index_of s x.val)) [
  | inl z ↦ rw (advance-waits armed x (n ∷ hs) i s z) (feed-stay script armed (x ∷ n ∷ hs) i s u e)
  | inr (k, m) ↦
      let behind = drop (k + length x.val) s in
      let cut : drop (k + length x.val) (s ++ u) ≡ behind ++ u =
        drop-append_left (k + length x.val) s u (index_of-fits s x.val k m) in
      let step = advance-next armed x n hs i k s m in
      let left : (advance armed (n ∷ hs) (i + 1) behind).0.finished ≡ false = cc (step, h) in
      rw (
        step,
        advance-next armed x n hs i k (s ++ u) (index_of-append s x.val u k m),
        cut,
        and_then-then_send (command n) (advance armed (n ∷ hs) (i + 1) behind)
            (λ r. feed script r u),
        advance-append script armed (n ∷ hs) (i + 1) behind u (drop-suc i script (n ∷ hs) x e) left,
      )
]

-- How the bytes are cut into chunks does not matter: while the script runs, one chunk and then
-- another make the calls, and leave the state, that the two in one chunk do.
pub feed-append :
    (script : ConnectScript) (r : Runner) (c d : Bytes)
    → r.finished ≡ false
    → (feed script r c).0.finished ≡ false
    → and_then (feed script r c) (λ q. feed script q d) ≡ feed script r (c ++ d)
feed-append script r c d f g =
    let one = feed-advance script r c f in
    let both = feed-advance script r (c ++ d) f in
    rw (one, both, sym (append_assoc r.text c d))
      (advance-append script r.armed (drop r.hop_index script) r.hop_index (r.text ++ c) d refl
        (cc (one, g)))

-- Once the script is over, what comes is not looked at.
pub feed-finished :
    (script : ConnectScript) (r : Runner) (c : Bytes)
    → r.finished ≡ true
    → feed script r c ≡ (r, [])
unfolding feed
feed-finished script r c f = rw f

unfinished :
    (armed : Bool) (i : ℕ) (s : Text) (p : Runner × List Action)
    → p ≡ stay armed i s
    → ¬ (p.0.finished ≡ true)
unfinished armed i s p e f =
    let z : false ≡ true = sym (ap (λ q. q.0.finished) e) ∙ f in ground arith

-- The script is over only when every prompt has come, one behind the other.
advance-Holds :
    (armed : Bool) (hs : List Hop) (i : ℕ) (s : Text)
    → (advance armed hs i s).0.finished ≡ true
    → Holds (advance armed hs i s).0.text hs s
advance-Holds armed [] i s f = rw (advance-over armed i s) (over refl)
advance-Holds armed (x ∷ []) i s f = elim (Option-cases (index_of s x.val)) [
  | inl n ↦
      absurd (unfinished armed i s (advance armed (x ∷ []) i s) (advance-waits armed x [] i s n) f)
  | inr (k, m) ↦
      rw (advance-last armed x i k s m)
        (prompt (take k s) (drop (k + length x.val) s) (index_of-split s x.val k m) (over refl))
]
advance-Holds armed (x ∷ n ∷ hs) i s f = elim (Option-cases (index_of s x.val)) [
  | inl z ↦ absurd (
      unfinished armed i s (advance armed (x ∷ n ∷ hs) i s) (advance-waits armed x (n ∷ hs) i s z)
        f)
  | inr (k, m) ↦
      let behind = drop (k + length x.val) s in
      let step = advance-next armed x n hs i k s m in
      rw step (
        prompt (take k s) behind (index_of-split s x.val k m)
          (advance-Holds armed (n ∷ hs) (i + 1) behind (cc (step, f))))
]

-- Text in front takes no dialogue away.
Holds-before :
    (left : Text) (h : Hop) (hs : List Hop) (pre s : Text)
    → Holds left (h ∷ hs) s
    → Holds left (h ∷ hs) (pre ++ s)
Holds-before left h hs pre s (prompt before behind e d) =
    prompt (pre ++ before) behind (rw e (sym (append_assoc pre before (h.val ++ behind)))) d

Holds-advance :
    (armed : Bool) (left : Text) (hs : List Hop) (i : ℕ) (s : Text)
    → hs ≢ []
    → Holds left hs s
    → (advance armed hs i s).0.finished ≡ true
Holds-advance armed left [] i s ne d = absurd (ne refl)
Holds-advance armed left (x ∷ []) i s ne (prompt before behind e d) =
    let (k, m, l) = index_of_first before x.val behind in rw (advance-last armed x i k s (rw e m))
Holds-advance armed left (x ∷ n ∷ hs) i s ne (prompt before behind e d) =
    let (k, m, l) = index_of_first before x.val behind in
    let whole : s ≡ (before ++ x.val) ++ behind = e ∙ sym (append_assoc before x.val behind) in
    let cut : drop (k + length x.val) s ≡ drop (k + length x.val) (before ++ x.val) ++ behind =
      rw whole (
        drop-append_left (k + length x.val) (before ++ x.val) behind
          (omega (arith, length-append before x.val))) in
    rw (advance-next armed x n hs i k s (rw e m), cut)
      (Holds-advance armed left (n ∷ hs) (i + 1)
        (drop (k + length x.val) (before ++ x.val) ++ behind) (λ z. cc z)
        (Holds-before left n hs (drop (k + length x.val) (before ++ x.val)) behind d))

-- With a script that is not empty a new runner comes to its end on a text exactly when the prompts
-- of all the hops occur in it one behind the other.
pub feed-finishes :
    (script : ConnectScript) (c : Bytes)
    → script ≢ []
    → ((feed script (start new) c).0.finished ≡ true) ↔ ((left : Text) × Holds left script c)
feed-finishes script c ne =
    let e = feed-advance script (start new) c refl in
    (
      λ f. (
        (feed script (start new) c).0.text,
        subst (λ p. Holds p.0.text script c) (sym e) (advance-Holds true script 0 c (cc (e, f))),
      ),
      λ (left, d). ap (λ p. p.0.finished) e ∙ Holds-advance true left script 0 c ne d,
    )
