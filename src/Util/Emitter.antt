-- ===== src/Util/Emitter.antt =====
-- `TypedEmitter` of src/util/emitter.ts: a map from event names to sets of listeners. A listener
-- is known by a number, and a set holds its elements in the order in which they came.
use pdn_whatspac_client.Base.{
  ℕ, ◌≡◌, refl, ap, ◌∙◌, inl, inr, Bool, true, false, Bool-cases, Option, none, some, List, [], ◌∷◌,
  Text, text_eq, text_eq_iff, ◌==◌, if◌then◌else◌, arith,
}
use pdn_whatspac_client.Store.Rows.{upsert, find, find-upsert, find-upsert_other}

pub record Entry : Type 0 where
  pub event : Text
  pub set : List ℕ

abbrev pub Listeners : Type 0
Listeners = List Entry

-- `Set.add` and `Set.delete`.
unfoldable pub add : ℕ → List ℕ → List ℕ
add l [] = l ∷ []
add l (x ∷ xs) = let rest = add l xs in if x == l then x ∷ xs else x ∷ rest

unfoldable pub delete : ℕ → List ℕ → List ℕ
delete l [] = []
delete l (x ∷ xs) = let rest = delete l xs in if x == l then xs else x ∷ rest

unfoldable pub has : ℕ → List ℕ → Bool
has l [] = false
has l (x ∷ xs) = let rest = has l xs in if x == l then true else rest

abbrev pub add_to : ℕ → Entry → Entry
add_to l e = record e { set = add l e.set }

unfoldable pub on : Text → ℕ → Listeners → Listeners
on event l = upsert (λ e. e.event) (add_to l) (record { event = event; set = l ∷ [] })

unfoldable pub off : Text → ℕ → Listeners → Listeners
off event l [] = []
off event l (e ∷ es) =
    let rest = off event l es in
    if text_eq e.event event then (record e { set = delete l e.set }) ∷ es else e ∷ rest

abbrev pub set_of : Option Entry → List ℕ
set_of none = []
set_of (some e) = e.set

-- `emit`: the listeners that are called, in order; the copy is what is there when it is called.
unfoldable pub emit : Text → Listeners → List ℕ
emit event s = set_of (find (λ e. e.event) event s)

-- `removeAll`.
abbrev pub remove_all : Listeners → Listeners
remove_all s = []

-- `on` adds the listener to those of its event, and leaves those of the others.
pub emit-on :
    (event : Text) (l : ℕ) (s : Listeners) → emit event (on event l s) ≡ add l (emit event s)
unfolding emit on
emit-on event l s =
    ap set_of
      (find-upsert (λ e. e.event) (add_to l) (record { event = event; set = l ∷ [] }) s (λ q. refl))
    ∙ added (find (λ e. e.event) event s)
  where
    added :
        (o : Option Entry)
        → set_of
            (some (elim o [ none ↦ record { event = event; set = l ∷ [] } | some e ↦ add_to l e ]))
          ≡ add l (set_of o)
    added none = unfold add in refl
    added (some e) = refl

pub emit-on_other :
    (event other : Text) (l : ℕ) (s : Listeners)
    → text_eq event other ≡ false
    → emit other (on event l s) ≡ emit other s
unfolding emit on
emit-on_other event other l s n = ap set_of (
    find-upsert_other (λ e. e.event) (add_to l) (record { event = event; set = l ∷ [] }) other s
      (λ q. refl) n)

pub emit-off :
    (event : Text) (l : ℕ) (s : Listeners) → emit event (off event l s) ≡ delete l (emit event s)
unfolding emit off find
emit-off event l [] = unfold delete in refl
emit-off event l (e ∷ es) = elim (Bool-cases (text_eq e.event event)) [
  | inl y ↦ rw (y, y)
  | inr n ↦ rw (n, n) (emit-off event l es)
]

pub emit-off_other :
    (event other : Text) (l : ℕ) (s : Listeners)
    → text_eq event other ≡ false
    → emit other (off event l s) ≡ emit other s
unfolding emit off find
emit-off_other event other l [] n = refl
emit-off_other event other l (e ∷ es) n = elim (Bool-cases (text_eq e.event event)) [
  | inl y ↦
      let same = (text_eq_iff e.event event).0 y in
      let m : text_eq e.event other ≡ false = ap (λ x. text_eq x other) same ∙ n in rw (y, m)
  | inr z ↦ elim (Bool-cases (text_eq e.event other)) [
    | inl y ↦ rw (z, y)
    | inr m ↦ rw (z, m) (emit-off_other event other l es n)
  ]
]

pub delete-add : (l : ℕ) (xs : List ℕ) → has l xs ≡ false → delete l (add l xs) ≡ xs
unfolding delete add has
delete-add l [] h = ground arith
delete-add l (x ∷ xs) h = ground (arith, delete-add l xs)

-- The function that `on` returns takes away what `on` did, for a listener that was not there.
pub off-on :
    (event : Text) (l : ℕ) (s : Listeners)
    → has l (emit event s) ≡ false
    → emit event (off event l (on event l s)) ≡ emit event s
off-on event l s h =
    emit-off event l (on event l s)
    ∙ ap (delete l) (emit-on event l s)
    ∙ delete-add l (emit event s) h
