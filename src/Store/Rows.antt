-- ===== src/Store/Rows.antt =====
-- A table with a primary key, in the order of its row ids: the statements that
-- src/store/store.ts makes of it.
use pdn_whatspac_client.Base.{
  ℕ, ◌≤◌, ◌≡◌, refl, ap, ◌++◌, ◌∙◌, inl, inr, false, Option, none, some, List, [], ◌∷◌, max, Text,
  All, All-map, text_eq, text_eq_iff, text_eq_refl, if◌then◌else◌, Bool-cases, arith,
}

module _ {R : Type 0} where
  -- `SELECT max(value)`, with `?? 0` where there is no row.
  unfoldable pub greatest : (R → ℕ) → List R → ℕ
  greatest value [] = 0
  greatest value (r ∷ rows) = max (value r) (greatest value rows)

  -- It is a bound, and no larger bound than need be.
  pub greatest-bounds :
      (value : R → ℕ) (rows : List R) → All (λ r. value r ≤ greatest value rows) rows
  unfolding greatest
  greatest-bounds value [] = tt
  greatest-bounds value (r ∷ rows) = (
    omega arith,
    All-map (λ q. value q ≤ greatest value rows)
        (λ q. value q ≤ max (value r) (greatest value rows)) rows (λ q l. omega arith)
        (greatest-bounds value rows),
  )

  pub greatest-least :
      (value : R → ℕ) (n : ℕ) (rows : List R)
      → All (λ r. value r ≤ n) rows
      → greatest value rows ≤ n
  unfolding greatest
  greatest-least value n [] h = omega arith
  greatest-least value n (r ∷ rows) h = omega (arith, h.0, greatest-least value n rows h.1)

module _ {R : Type 0} (key : R → Text) where
  -- `INSERT INTO … VALUES row ON CONFLICT(key) DO UPDATE SET …`.
  unfoldable pub upsert : (R → R) → R → List R → List R
  upsert update row [] = row ∷ []
  upsert update row (r ∷ rows) =
      let rest = upsert update row rows in
      if text_eq (key r) (key row) then update r ∷ rows else r ∷ rest

  -- `SELECT … WHERE key = k`.
  unfoldable pub find : Text → List R → Option R
  find k [] = none
  find k (r ∷ rows) = let rest = find k rows in if text_eq (key r) k then some r else rest

  -- No row has the key.
  abbrev pub Absent : Text → List R → Type 0
  Absent k rows = All (λ r. text_eq (key r) k ≡ false) rows

  -- The key is a primary key.
  abbrev pub IsKeyed : List R → Type 0
  IsKeyed [] = Unit
  IsKeyed (r ∷ rows) = Absent (key r) rows × IsKeyed rows

  pub upsert-Absent :
      (update : R → R) (row : R) (k : Text) (rows : List R)
      → ((r : R) → key (update r) ≡ key r)
      → text_eq (key row) k ≡ false
      → Absent k rows
      → Absent k (upsert update row rows)
  unfolding upsert
  upsert-Absent update row k [] same n a = (n, tt)
  upsert-Absent update row k (r ∷ rows) same n a = elim (Bool-cases (text_eq (key r) (key row))) [
    | inl y ↦ rw y (rw (same r) a.0, a.1)
    | inr z ↦ rw z (a.0, upsert-Absent update row k rows same n a.1)
  ]

  apart : (j k : Text) → text_eq j k ≡ false → text_eq k j ≡ false
  apart j k n = elim (Bool-cases (text_eq k j)) [
    | inl y ↦ let e = (text_eq_iff k j).0 y in cc (text_eq_refl j, e, n)
    | inr z ↦ z
  ]

  pub upsert-IsKeyed :
      (update : R → R) (row : R) (rows : List R)
      → ((r : R) → key (update r) ≡ key r)
      → IsKeyed rows
      → IsKeyed (upsert update row rows)
  unfolding upsert
  upsert-IsKeyed update row [] same h = (tt, tt)
  upsert-IsKeyed update row (r ∷ rows) same h = elim (Bool-cases (text_eq (key r) (key row))) [
    | inl y ↦ rw y (rw (same r) h.0, h.1)
    | inr z ↦ rw z (
      upsert-Absent update row (key r) rows same (apart (key r) (key row) z) h.0,
      upsert-IsKeyed update row rows same h.1,
    )
  ]

  pub find-upsert :
      (update : R → R) (row : R) (rows : List R)
      → ((r : R) → key (update r) ≡ key r)
      → find (key row) (upsert update row rows)
        ≡ some (elim (find (key row) rows) [ none ↦ row | some r ↦ update r ])
  unfolding upsert find
  find-upsert update row [] same = rw (text_eq_refl (key row))
  find-upsert update row (r ∷ rows) same = elim (Bool-cases (text_eq (key r) (key row))) [
    | inl y ↦ rw (y, same r, y)
    | inr z ↦ rw (z, z) (find-upsert update row rows same)
  ]

  pub find-upsert_other :
      (update : R → R) (row : R) (k : Text) (rows : List R)
      → ((r : R) → key (update r) ≡ key r)
      → text_eq (key row) k ≡ false
      → find k (upsert update row rows) ≡ find k rows
  unfolding upsert find
  find-upsert_other update row k [] same n = rw n
  find-upsert_other update row k (r ∷ rows) same n = elim (Bool-cases (text_eq (key r) (key row))) [
    | inl y ↦
        let e = (text_eq_iff (key r) (key row)).0 y in
        let m : text_eq (key r) k ≡ false = ap (λ x. text_eq x k) e ∙ n in rw (y, same r, m)
    | inr z ↦ rw (z, find-upsert_other update row k rows same n)
  ]

  -- A row with a new key is put behind the others.
  pub upsert_new :
      (update : R → R) (row : R) (rows : List R)
      → Absent (key row) rows
      → upsert update row rows ≡ rows ++ row ∷ []
  unfolding upsert
  upsert_new update row [] h = refl
  upsert_new update row (r ∷ rows) h = rw (h.0) (ap (λ t. r ∷ t) (upsert_new update row rows h.1))

  -- The same statement a second time changes nothing more.
  pub upsert_twice :
      (update : R → R) (row : R) (rows : List R)
      → ((r : R) → key (update r) ≡ key r)
      → ((r : R) → update (update r) ≡ update r)
      → update row ≡ row
      → upsert update row (upsert update row rows) ≡ upsert update row rows
  unfolding upsert
  upsert_twice update row [] same twice fixed = rw (text_eq_refl (key row), fixed)
  upsert_twice update row (r ∷ rows) same twice fixed =
      elim (Bool-cases (text_eq (key r) (key row))) [
        | inl y ↦ rw (y, same r, y, twice r)
        | inr z ↦ rw (z, z, upsert_twice update row rows same twice fixed)
      ]

  -- A value that the update keeps does not get smaller.
  pub greatest-upsert :
      (value : R → ℕ) (update : R → R) (row : R) (rows : List R)
      → ((r : R) → value r ≤ value (update r))
      → greatest value rows ≤ greatest value (upsert update row rows)
  unfolding greatest upsert
  greatest-upsert value update row [] grows = omega arith
  greatest-upsert value update row (r ∷ rows) grows =
      elim (Bool-cases (text_eq (key r) (key row))) [
        | inl y ↦ rw y (omega (arith, grows r))
        | inr z ↦ rw z (omega (arith, greatest-upsert value update row rows grows))
      ]

  -- What holds of the new row, and goes on holding, holds of every row.
  pub upsert-All {κ} :
      (P : R → Type κ) (update : R → R) (row : R) (rows : List R)
      → ((r : R) → P r → P (update r))
      → P row
      → All P rows
      → All P (upsert update row rows)
  unfolding upsert
  upsert-All P update row [] keep p h = (p, tt)
  upsert-All P update row (r ∷ rows) keep p h = elim (Bool-cases (text_eq (key r) (key row))) [
    | inl y ↦ rw y (keep r h.0, h.1)
    | inr z ↦ rw z (h.0, upsert-All P update row rows keep p h.1)
  ]
