-- ===== src/Web/Events/Closing.antt =====
-- A stream of src/heads/web/app.ts leaves no listener behind, and sends nothing once it is closed.
use pdn_whatspac_client.Base.{
  ℕ, ◌≡◌, refl, sym, ap, subst, ◌∙◌, Bool, true, false, List, [], ◌∷◌, ◌++◌, Text, text_eq,
  text_eq_iff, if◌then◌else◌, inl, inr, ◌⊎◌, Bool-cases,
}
use pdn_whatspac_client.Util.Emitter.{
  Listeners, on, off, emit, has, add, delete, emit-on, emit-on_other, emit-off, emit-off_other,
  delete-add,
}
use pdn_whatspac_client.Web.Events.{
  Stream, status_event, post_event, message_event, presence_event, subscribed, unsubscribed,
  open_stream, cleanup, hears, Event, emitted, aborted, step, run,
}

-- The listeners of an event, after one more or one less of some event.
emit-on_if :
    (event e : Text) (l : ℕ) (s : Listeners)
    → emit e (on event l s) ≡ (if text_eq event e then add l (emit e s) else emit e s)
emit-on_if event e l s = elim (Bool-cases (text_eq event e)) [
  | inl y ↦
      let same = (text_eq_iff event e).0 y in
      rw y (
        ap (λ x. emit x (on event l s)) (sym same)
        ∙ emit-on event l s
        ∙ ap (λ x. add l (emit x s)) same)
  | inr n ↦ rw n (emit-on_other event e l s n)
]

emit-off_if :
    (event e : Text) (l : ℕ) (s : Listeners)
    → emit e (off event l s) ≡ (if text_eq event e then delete l (emit e s) else emit e s)
emit-off_if event e l s = elim (Bool-cases (text_eq event e)) [
  | inl y ↦
      let same = (text_eq_iff event e).0 y in
      rw y (
        ap (λ x. emit x (off event l s)) (sym same)
        ∙ emit-off event l s
        ∙ ap (λ x. delete l (emit x s)) same)
  | inr n ↦ rw n (emit-off_other event e l s n)
]

abbrev Tests : Bool → Bool → Bool → Bool → Text → Type 0
Tests a b c d e =
    (text_eq status_event e ≡ a)
    × (text_eq post_event e ≡ b)
    × (text_eq message_event e ≡ c)
    × (text_eq presence_event e ≡ d)

-- An event is one of the four, or none.
four :
    (e : Text)
    → Tests true false false false e
      ⊎ Tests false true false false e
      ⊎ Tests false false true false e
      ⊎ Tests false false false true e
      ⊎ Tests false false false false e
four e = elim (Bool-cases (text_eq status_event e)) [
  | inl y ↦ inl (
      subst (Tests true false false false) ((text_eq_iff status_event e).0 y)
        (unfold text_eq in (refl, refl, refl, refl)))
  | inr n ↦ elim (Bool-cases (text_eq post_event e)) [
    | inl y ↦ inr (
        inl (
          subst (Tests false true false false) ((text_eq_iff post_event e).0 y)
            (unfold text_eq in (refl, refl, refl, refl))))
    | inr m ↦ elim (Bool-cases (text_eq message_event e)) [
      | inl y ↦ inr (
          inr (
            inl (
              subst (Tests false false true false) ((text_eq_iff message_event e).0 y)
                (unfold text_eq in (refl, refl, refl, refl)))))
      | inr k ↦ elim (Bool-cases (text_eq presence_event e)) [
        | inl y ↦ inr (
            inr (
              inr (
                inl (
                  subst (Tests false false false true) ((text_eq_iff presence_event e).0 y)
                    (unfold text_eq in (refl, refl, refl, refl))))))
        | inr j ↦ inr (inr (inr (inr (n, m, k, j))))
      ]
    ]
  ]
]

module _ (l : ℕ) (e : Text) (s : Listeners) where
  abbrev on_tests : Bool → Bool → Bool → Bool → List ℕ
  on_tests a b c d =
      let x = if a then add l (emit e s) else emit e s in
      let y = if b then add l x else x in
      let z = if c then add l y else y in if d then add l z else z

  abbrev off_tests : Bool → Bool → Bool → Bool → List ℕ → List ℕ
  off_tests a b c d t =
      let x = if a then delete l t else t in
      let y = if b then delete l x else x in
      let z = if c then delete l y else y in if d then delete l z else z

  emit-subscribed :
      emit e (subscribed l s)
      ≡ on_tests
          (text_eq status_event e)
          (text_eq post_event e)
          (text_eq message_event e)
          (text_eq presence_event e)
  emit-subscribed = rw (emit-on_if, emit-on_if, emit-on_if, emit-on_if)

  emit-unsubscribed :
      (t : Listeners)
      → emit e (unsubscribed l t)
        ≡ off_tests
            (text_eq status_event e)
            (text_eq post_event e)
            (text_eq message_event e)
            (text_eq presence_event e)
            (emit e t)
  emit-unsubscribed t = rw (emit-off_if, emit-off_if, emit-off_if, emit-off_if)

  restored : has l (emit e s) ≡ false → emit e (unsubscribed l (subscribed l s)) ≡ emit e s
  restored h =
      emit-unsubscribed (subscribed l s)
      ∙ ap
          (off_tests (text_eq status_event e) (text_eq post_event e) (text_eq message_event e)
            (text_eq presence_event e))
          emit-subscribed
      ∙ elim (four e) [
        | inl t ↦ rw (t.0, t.1, t.2, t.3) (delete-add l (emit e s) h)
        | inr (inl t) ↦ rw (t.0, t.1, t.2, t.3) (delete-add l (emit e s) h)
        | inr (inr (inl t)) ↦ rw (t.0, t.1, t.2, t.3) (delete-add l (emit e s) h)
        | inr (inr (inr (inl t))) ↦ rw (t.0, t.1, t.2, t.3) (delete-add l (emit e s) h)
        | inr (inr (inr (inr t))) ↦ rw (t.0, t.1, t.2, t.3)
      ]

-- A stream over the listeners that were there before it: open, or closed.
abbrev IsOpen : ℕ → Listeners → Stream → Type 0
IsOpen l before s = (s.closed ≡ false) × (s.listeners ≡ subscribed l before)

abbrev IsShut : ℕ → Listeners → Stream → Type 0
IsShut l before s = (s.closed ≡ true) × (s.listeners ≡ unsubscribed l (subscribed l before))

module _ (l : ℕ) (before : Listeners) where
  cleanup-IsShut :
      (s : Stream) → IsOpen l before s ⊎ IsShut l before s → IsShut l before (cleanup l s)
  unfolding cleanup
  cleanup-IsShut s (inl o) = rw (o.0) (refl, ap (unsubscribed l) (o.1))
  cleanup-IsShut s (inr h) = rw (h.0) (refl, h.1)

  step-stays :
      (e : Event) (s : Stream)
      → IsOpen l before s ⊎ IsShut l before s
      → IsOpen l before (step l e s).0 ⊎ IsShut l before (step l e s).0
  unfolding step
  step-stays (emitted event payload) s h = h
  step-stays aborted s h = inr (cleanup-IsShut s h)

  run-stays :
      (es : List Event) (s : Stream)
      → IsOpen l before s ⊎ IsShut l before s
      → IsOpen l before (run l es s).0 ⊎ IsShut l before (run l es s).0
  unfolding run
  run-stays [] s h = h
  run-stays (e ∷ es) s h = run-stays es (step l e s).0 (step-stays e s h)

  step-IsShut :
      (e : Event) (s : Stream)
      → IsShut l before s
      → IsShut l before (step l e s).0 × ((step l e s).1 ≡ [])
  unfolding step hears
  step-IsShut aborted s h = (cleanup-IsShut s (inr h), refl)
  step-IsShut (emitted event payload) s h =
      (h, elim (Bool-cases (has l (emit event s.listeners))) [ inl y ↦ rw (y, h.0) | inr n ↦ rw n ])

  run-IsShut :
      (es : List Event) (s : Stream)
      → IsShut l before s
      → IsShut l before (run l es s).0 × ((run l es s).1 ≡ [])
  unfolding run
  run-IsShut [] s h = (h, refl)
  run-IsShut (e ∷ es) s h =
      let (k, none_now) = step-IsShut e s h in
      let (m, none_later) = run-IsShut es (step l e s).0 k in
      (m, ap (λ f. f ++ (run l es (step l e s).0).1) none_now ∙ none_later)

-- However the agent emits and however often the request is aborted: after the first abort the stream
-- sends nothing more, and the listeners of each event are those that were there before the stream
-- was opened, where the stream's own was not among them.
pub run-leaves_nothing :
    (l : ℕ) (status : Text) (before : Listeners) (es fs : List Event) (event : Text)
    → has l (emit event before) ≡ false
    → let s = (run l es (open_stream l status before).0).0 in
      let (t, frames) = run l (aborted ∷ fs) s in
      (frames ≡ []) × (emit event t.listeners ≡ emit event before)
unfolding open_stream run step
run-leaves_nothing l status before es fs event h =
    let s = (run l es (open_stream l status before).0).0 in
    let shut =
      cleanup-IsShut l before s
        (run-stays l before es (open_stream l status before).0 (inl (refl, refl))) in
    let (k, quiet) = run-IsShut l before fs (cleanup l s) shut in
    (quiet, ap (emit event) (k.1) ∙ restored l event before h)
