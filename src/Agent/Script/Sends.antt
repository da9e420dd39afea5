-- ===== src/Agent/Script/Sends.antt =====
-- What the runner of src/agent/connectScript.ts sends.
use pdn_whatspac_client.Base.{
  ℕ, zero, suc, ◌+◌, ◌-◌, ◌≤◌, ◌≡◌, sym, refl, ap, inl, inr, Bool, true, false, List, [], ◌∷◌, ◌++◌,
  Text, Bytes, length, take, drop, index_of, if◌then◌else◌, Option-cases, arith,
}
use pdn_whatspac_client.Agent.Script.{
  Hop, ConnectScript, Action, send, on_done, Runner, new, start, command, latin1, stay, then_send,
  advance, feed,
}
use pdn_whatspac_client.Agent.Script.Dialogue.{
  advance-over, advance-waits, advance-last, advance-next, feed-advance,
}

-- What was sent is the commands of the hops behind the first, in order, as far as the script is.
abbrev pub sends : List Hop → List Action
sends [] = []
sends (h ∷ hs) = send (command h) ∷ sends hs

abbrev pub closing : Runner → List Action
closing r = if r.finished then on_done (latin1 r.text) ∷ [] else []

take-nil : {A : Type 0} (n : ℕ) → take {A = A} n [] ≡ []
take-nil zero = refl
take-nil (suc n) = refl

IsAccounted : List Hop → ℕ → Runner × List Action → Type 0
IsAccounted hs i (r, actions) =
    (actions ≡ sends (take (r.hop_index - i) (drop 1 hs)) ++ closing r) × (i ≤ r.hop_index)

stay-IsAccounted :
    (armed : Bool) (hs : List Hop) (i : ℕ) (s : Text) → IsAccounted hs i (stay armed i s)
unfolding IsAccounted
stay-IsAccounted armed hs i s = let z : i - i ≡ 0 = omega arith in (rw z, omega arith)

then_send-IsAccounted :
    (h n : Hop) (hs : List Hop) (i : ℕ) (p : Runner × List Action)
    → IsAccounted (n ∷ hs) (i + 1) p
    → IsAccounted (h ∷ n ∷ hs) i (then_send (command n) p)
unfolding IsAccounted
then_send-IsAccounted h n hs i (r, actions) (e, l) =
    let z : r.hop_index - i ≡ suc (r.hop_index - (i + 1)) = omega arith in
    (rw z (ap (◌∷◌ (send (command n))) e), omega arith)

last-IsAccounted :
    (h : Hop) (i : ℕ) (s : Text)
    → IsAccounted (h ∷ []) i (
      record { hop_index = i + 1; text = s; finished = true; armed = false },
      on_done (latin1 s) ∷ [],
    )
unfolding IsAccounted
last-IsAccounted h i s = (rw (take-nil {A = Hop} (i + 1 - i)), omega arith)

advance-IsAccounted :
    (armed : Bool) (hs : List Hop) (i : ℕ) (s : Text) → IsAccounted hs i (advance armed hs i s)
advance-IsAccounted armed [] i s = rw (advance-over armed i s) (stay-IsAccounted armed [] i s)
advance-IsAccounted armed (x ∷ []) i s = elim (Option-cases (index_of s x.val)) [
  | inl n ↦ rw (advance-waits armed x [] i s n) (stay-IsAccounted armed (x ∷ []) i s)
  | inr (k, m) ↦
      rw (advance-last armed x i k s m) (last-IsAccounted x i (drop (k + length x.val) s))
]
advance-IsAccounted armed (x ∷ n ∷ hs) i s = elim (Option-cases (index_of s x.val)) [
  | inl z ↦ rw (advance-waits armed x (n ∷ hs) i s z) (stay-IsAccounted armed (x ∷ n ∷ hs) i s)
  | inr (k, m) ↦ rw (advance-next armed x n hs i k s m) (
      then_send-IsAccounted x n hs i (advance armed (n ∷ hs) (i + 1) (drop (k + length x.val) s))
        (advance-IsAccounted armed (n ∷ hs) (i + 1) (drop (k + length x.val) s)))
]

-- From a new runner, what a chunk makes it send is the commands of the hops behind the first, in
-- order, up to the hop that it then waits at; `onDone` comes last, with the text that is left,
-- exactly when the script is over.
pub feed-sends :
    (script : ConnectScript) (c : Bytes)
    → let (r, actions) = feed script (start new) c in
      actions ≡ sends (take r.hop_index (drop 1 script)) ++ closing r
unfolding IsAccounted
feed-sends script c =
    let z : (advance true script 0 c).0.hop_index - 0 ≡ (advance true script 0 c).0.hop_index =
      omega arith in
    let h = (advance-IsAccounted true script 0 c).0 in
    rw (feed-advance script (start new) c refl) (rw (sym z) h)
