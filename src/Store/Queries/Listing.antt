-- ===== src/Store/Queries/Listing.antt =====
-- What `listPosts` and `listDirectMessages` of src/store/store.ts give.
use pdn_whatspac_client.Base.{
  ℕ, suc, ◌+◌, ◌≡◌, ◌≤◌, refl, sym, ap, ◌∙◌, subst, min, max, inl, inr, Bool, true, ◌&&◌, List, [],
  ◌∷◌, ◌++◌, Text, All, All-map, length, length-take, take, drop, take-append-drop, leb, text_eq,
  if◌then◌else◌, Bool-cases, arith,
}
use pdn_whatspac_client.Store.{Store}
use pdn_whatspac_client.Store.Rows.{greatest}
use pdn_whatspac_client.Store.Queries.{
  where_, insert, order_by, IsOrdered, order_by-IsOrdered, list_posts, list_direct_messages,
}

-- How many rows a test holds for.
abbrev pub matching {ℓ} : {A : Type ℓ} → (A → Bool) → List A → ℕ
matching test [] = 0
matching test (r ∷ rows) = (if test r then 1 else 0) + matching test rows

module _ {R : Type 0} where
  -- As many rows of each kind as the table has among those picked.
  abbrev pub ArePicked : (R → Bool) → List R → List R → Type 0
  ArePicked pick listed rows =
      (test : R → Bool) → matching test listed ≡ matching (λ q. pick q && test q) rows

  matching-insert :
      (test : R → Bool) (before : R → R → Bool) (r : R) (rows : List R)
      → matching test (insert before r rows) ≡ (if test r then 1 else 0) + matching test rows
  unfolding insert
  matching-insert test before r [] = refl
  matching-insert test before r (q ∷ rows) = elim (Bool-cases (before r q)) [
    | inl y ↦ rw y refl
    | inr n ↦ rw n (omega (arith, matching-insert test before r rows))
  ]

  pub matching-order_by :
      (test : R → Bool) (before : R → R → Bool) (rows : List R)
      → matching test (order_by before rows) ≡ matching test rows
  unfolding order_by
  matching-order_by test before [] = refl
  matching-order_by test before (r ∷ rows) =
      matching-insert test before r (order_by before rows)
      ∙ omega (arith, matching-order_by test before rows)

  where_-ArePicked : (pick : R → Bool) (rows : List R) → ArePicked pick (where_ pick rows) rows
  unfolding where_
  where_-ArePicked pick [] test = refl
  where_-ArePicked pick (r ∷ rows) test = elim (Bool-cases (pick r)) [
    | inl y ↦ rw y (omega (arith, where_-ArePicked pick rows test))
    | inr n ↦ rw n (omega (arith, where_-ArePicked pick rows test))
  ]

  pub length-where_ :
      (pick : R → Bool) (rows : List R) → length (where_ pick rows) ≡ matching pick rows
  unfolding where_
  length-where_ pick [] = refl
  length-where_ pick (r ∷ rows) = elim (Bool-cases (pick r)) [
    | inl y ↦ rw y (omega (arith, length-where_ pick rows))
    | inr n ↦ rw n (omega (arith, length-where_ pick rows))
  ]

  length-insert :
      (before : R → R → Bool) (r : R) (rows : List R)
      → length (insert before r rows) ≡ suc (length rows)
  unfolding insert
  length-insert before r [] = refl
  length-insert before r (q ∷ rows) = elim (Bool-cases (before r q)) [
    | inl y ↦ rw y refl
    | inr n ↦ rw n (ap suc (length-insert before r rows))
  ]

  pub length-order_by :
      (before : R → R → Bool) (rows : List R) → length (order_by before rows) ≡ length rows
  unfolding order_by
  length-order_by before [] = refl
  length-order_by before (r ∷ rows) =
      length-insert before r (order_by before rows) ∙ ap suc (length-order_by before rows)

  greatest-insert :
      (value : R → ℕ) (before : R → R → Bool) (r : R) (rows : List R)
      → greatest value (insert before r rows) ≡ max (value r) (greatest value rows)
  unfolding greatest insert
  greatest-insert value before r [] = refl
  greatest-insert value before r (q ∷ rows) = elim (Bool-cases (before r q)) [
    | inl y ↦ rw y refl
    | inr n ↦ rw n (omega (arith, greatest-insert value before r rows))
  ]

  pub greatest-order_by :
      (value : R → ℕ) (before : R → R → Bool) (rows : List R)
      → greatest value (order_by before rows) ≡ greatest value rows
  unfolding greatest order_by
  greatest-order_by value before [] = refl
  greatest-order_by value before (r ∷ rows) =
      greatest-insert value before r (order_by before rows)
      ∙ ap (max (value r)) (greatest-order_by value before rows)

  module _ (time : R → ℕ) where
    abbrev pub AreNewestFirst : List R → Type 0
    AreNewestFirst [] = Unit {0}
    AreNewestFirst (r ∷ rows) = All (λ q. time q ≤ time r) rows × AreNewestFirst rows

    abbrev newer : R → R → Bool
    newer a b = leb (time b) (time a)

    AreNewestFirst-IsOrdered : (rows : List R) → IsOrdered newer rows → AreNewestFirst rows
    AreNewestFirst-IsOrdered [] h = tt
    AreNewestFirst-IsOrdered (r ∷ rows) h = (
      All-map (λ q. newer r q ≡ true) (λ q. time q ≤ time r) rows (λ q e. ground (arith, e)) h.0,
      AreNewestFirst-IsOrdered rows h.1,
    )

    -- The listed rows and the rest are the picked rows of the table, each as often as it is there,
    -- the newest first; and only where the limit is reached is there a rest.
    abbrev pub IsListing : (R → Bool) → ℕ → List R → List R → Type 0
    IsListing pick limit rows listed =
        (rest : List R) × ArePicked pick (listed ++ rest) rows
        × AreNewestFirst (listed ++ rest)
        × (length listed ≡ min limit (matching pick rows))

    take-IsListing :
        (pick : R → Bool) (limit : ℕ) (rows : List R)
        → IsListing pick limit rows (take limit (order_by newer (where_ pick rows)))
    take-IsListing pick limit rows =
        let found = where_ pick rows in
        let sorted = order_by newer found in
        let whole = sym (take-append-drop limit sorted) in
        (
          drop limit sorted,
          subst (λ all. ArePicked pick all rows) whole
              (λ test. matching-order_by test newer found ∙ where_-ArePicked pick rows test),
          subst AreNewestFirst whole (
              AreNewestFirst-IsOrdered sorted (
                order_by-IsOrdered newer (λ r q n. ground (arith, n))
                  (λ r q t x y. ground (arith, x, y)) found)),
          length-take limit sorted
              ∙ ap (min limit) (length-order_by newer found ∙ length-where_ pick rows),
        )

-- The posts that `listPosts` gives, with some rest behind them, are the posts of the channel and no
-- others, each as often as it is in the table, the newest first; and as many are given as there are,
-- up to the limit. So no post that is left out is newer than one that is given.
pub list_posts-IsListing :
    (cid : Text) (limit : ℕ) (s : Store)
    → IsListing (λ q. q.ts) (λ q. text_eq q.cid cid) limit s.posts (list_posts cid limit s)
unfolding list_posts
list_posts-IsListing cid limit s = take-IsListing (λ q. q.ts) (λ q. text_eq q.cid cid) limit s.posts

-- So are the messages of a conversation that `listDirectMessages` gives.
list_direct_messages-IsListing :
    (sid : Text) (limit : ℕ) (s : Store)
    → IsListing
        (λ q. q.ts)
        (λ q. text_eq q.sid sid)
        limit
        s.messages
        (list_direct_messages sid limit s)
unfolding list_direct_messages
list_direct_messages-IsListing sid limit s =
    take-IsListing (λ q. q.ts) (λ q. text_eq q.sid sid) limit s.messages
