-- ===== src/Store/Replay.antt =====
-- The statements of src/store/store.ts that are made again for the same rows.
use pdn_whatspac_client.Base.{
  ◌≡◌, refl, ap, ◌∙◌, inl, inr, true, false, ◌≢◌, text_eq_refl, List, [], ◌∷◌, All, Text, text_eq,
  text_eq_iff, Bool-cases, sym,
}
use pdn_whatspac_client.Protocol.Messages.{Callsign}
use pdn_whatspac_client.Store.Rows.{upsert, Absent, IsKeyed, upsert_twice}
use pdn_whatspac_client.Store.{insert_online, delete_online}

-- One `INSERT … ON CONFLICT DO UPDATE` for values of `X`, whose update can be made again.
module _ {R X : Type 0} (key : R → Text) (update : X → R → R) (row : X → R) where
  abbrev put : X → List R → List R
  put x rows = upsert key (update x) (row x) rows

  abbrev pub put_all : List X → List R → List R
  put_all [] rows = rows
  put_all (x ∷ xs) rows = put_all xs (put x rows)

  -- The rows hold what the statement for `x` makes.
  abbrev Holds : X → List R → Type 0
  Holds x rows = put x rows ≡ rows

  module _ (same : (x : X) (r : R) → key (update x r) ≡ key r)
      (twice : (x : X) (r : R) → update x (update x r) ≡ update x r)
      (fixed : (x : X) → update x (row x) ≡ row x) where
    put-here :
        (x : X) (r : R) (rows : List R)
        → text_eq (key r) (key (row x)) ≡ true
        → put x (r ∷ rows) ≡ update x r ∷ rows
    unfolding upsert
    put-here x r rows y = rw y

    put-there :
        (x : X) (r : R) (rows : List R)
        → text_eq (key r) (key (row x)) ≡ false
        → put x (r ∷ rows) ≡ r ∷ put x rows
    unfolding upsert
    put-there x r rows n = rw n

    put-ne-nil : (x : X) → put x [] ≢ []
    unfolding upsert
    put-ne-nil x e = cc e

    -- A row that one statement changes is no row of another key.
    apart :
        (x y : X) (r : R)
        → text_eq (key (row y)) (key (row x)) ≡ false
        → text_eq (key r) (key (row y)) ≡ true
        → text_eq (key r) (key (row x)) ≡ false
    apart x y r n e =
        let k = (text_eq_iff (key r) (key (row y))).0 e in ap (λ z. text_eq z (key (row x))) k ∙ n

    put-Holds_other :
        (x y : X) (rows : List R)
        → text_eq (key (row y)) (key (row x)) ≡ false
        → Holds x rows
        → Holds x (put y rows)
    put-Holds_other x y [] n h = absurd (put-ne-nil x h)
    put-Holds_other x y (r ∷ rows) n h = elim (Bool-cases (text_eq (key r) (key (row y)))) [
      | inl e ↦
          let a = apart x y r n e in
          ap (put x) (put-here y r rows e)
          ∙ put-there x (update y r) rows (ap (λ k. text_eq k (key (row x))) (same y r) ∙ a)
          ∙ ap (λ t. update y r ∷ t) (tail-held (sym (put-there x r rows a) ∙ h))
          ∙ sym (put-here y r rows e)
      | inr e ↦ elim (Bool-cases (text_eq (key r) (key (row x)))) [
        | inl f ↦
            ap (put x) (put-there y r rows e)
            ∙ put-here x r (put y rows) f
            ∙ ap (λ q. q ∷ put y rows) (head-held (sym (put-here x r rows f) ∙ h))
            ∙ sym (put-there y r rows e)
        | inr f ↦
            ap (put x) (put-there y r rows e)
            ∙ put-there x r (put y rows) f
            ∙ ap (λ t. r ∷ t)
                (put-Holds_other x y rows n (tail-held (sym (put-there x r rows f) ∙ h)))
            ∙ sym (put-there y r rows e)
      ]
    ]
      where
        tail-held : {q t : R} {ps qs : List R} → (q ∷ ps ≡ t ∷ qs) → ps ≡ qs
        tail-held e = cc e

        head-held : {q t : R} {ps qs : List R} → (q ∷ ps ≡ t ∷ qs) → q ≡ t
        head-held e = cc e

    put_put_all-Alls :
        (x : X) (ys : List X) (rows : List R)
        → Absent (λ y. key (row y)) (key (row x)) ys
        → Holds x rows
        → Holds x (put_all ys rows)
    put_put_all-Alls x [] rows a h = h
    put_put_all-Alls x (y ∷ ys) rows a h =
        put_put_all-Alls x ys (put y rows) a.1 (put-Holds_other x y rows a.0 h)

    put_all-All :
        (xs : List X) (rows : List R)
        → IsKeyed (λ x. key (row x)) xs
        → All (λ x. Holds x (put_all xs rows)) xs
    put_all-All [] rows h = tt
    put_all-All (x ∷ xs) rows h = (
      put_put_all-Alls x xs (put x rows) h.0
          (upsert_twice key (update x) (row x) rows (same x) (twice x) (fixed x)),
      put_all-All xs (put x rows) h.1,
    )

    put_all-held :
        (xs : List X) (rows : List R) → All (λ x. Holds x rows) xs → put_all xs rows ≡ rows
    put_all-held [] rows h = refl
    put_all-held (x ∷ xs) rows h = ap (put_all xs) h.0 ∙ put_all-held xs rows h.1

    pub put_all_twice :
        (xs : List X) (rows : List R)
        → IsKeyed (λ x. key (row x)) xs
        → put_all xs (put_all xs rows) ≡ put_all xs rows
    put_all_twice xs rows h = put_all-held xs (put_all xs rows) (put_all-All xs rows h)

pub insert_online_twice :
    (c : Callsign) (rows : List Callsign)
    → insert_online (insert_online rows c) c ≡ insert_online rows c
unfolding insert_online
insert_online_twice c [] = rw (text_eq_refl c)
insert_online_twice c (d ∷ ds) = elim (Bool-cases (text_eq d c)) [
  | inl y ↦ rw (y, y)
  | inr n ↦ rw (n, n, insert_online_twice c ds)
]

pub delete_online_twice :
    (c : Callsign) (rows : List Callsign)
    → delete_online c (delete_online c rows) ≡ delete_online c rows
unfolding delete_online
delete_online_twice c [] = refl
delete_online_twice c (d ∷ ds) = elim (Bool-cases (text_eq d c)) [
  | inl y ↦ rw (y, delete_online_twice c ds)
  | inr n ↦ rw (n, n, delete_online_twice c ds)
]
