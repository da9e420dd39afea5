-- ===== src/Rhp/Connection/Counting.antt =====
-- Counting the requests of src/rhp/client.ts that were issued, wait, and were settled.
use pdn_whatspac_client.Base.{
  ℕ, ◌+◌, ◌<◌, ◌≤◌, ◌≡◌, ◌⊎◌, refl, inl, inr, true, List, [], ◌∷◌, ◌++◌, ◌==◌, if◌then◌else◌, arith,
}
use pdn_whatspac_client.Rhp.Connection.{
  Connection, Effect, issued, resolved, rejected, refused, wrote, delivered, link_closed, member,
  delete,
}

abbrev pub count : ℕ → List ℕ → ℕ
count k [] = 0
count k (x ∷ xs) = (if x == k then 1 else 0) + count k xs

abbrev pub issues : ℕ → List Effect → ℕ
issues k [] = 0
issues k (issued id ∷ es) = (if id == k then 1 else 0) + issues k es
issues k (resolved id env ∷ es) = issues k es
issues k (rejected id ∷ es) = issues k es
issues k (refused ∷ es) = issues k es
issues k (wrote b ∷ es) = issues k es
issues k (delivered h b ∷ es) = issues k es
issues k (link_closed h ∷ es) = issues k es

abbrev pub settles : ℕ → List Effect → ℕ
settles k [] = 0
settles k (issued id ∷ es) = settles k es
settles k (resolved id env ∷ es) = (if id == k then 1 else 0) + settles k es
settles k (rejected id ∷ es) = (if id == k then 1 else 0) + settles k es
settles k (refused ∷ es) = settles k es
settles k (wrote b ∷ es) = settles k es
settles k (delivered h b ∷ es) = settles k es
settles k (link_closed h ∷ es) = settles k es

pub issues-append : (k : ℕ) (xs ys : List Effect) → issues k (xs ++ ys) ≡ issues k xs + issues k ys
issues-append k [] ys = omega arith
issues-append k (issued id ∷ xs) ys = omega (arith, issues-append k xs ys)
issues-append k (resolved id env ∷ xs) ys = issues-append k xs ys
issues-append k (rejected id ∷ xs) ys = issues-append k xs ys
issues-append k (refused ∷ xs) ys = issues-append k xs ys
issues-append k (wrote b ∷ xs) ys = issues-append k xs ys
issues-append k (delivered h b ∷ xs) ys = issues-append k xs ys
issues-append k (link_closed h ∷ xs) ys = issues-append k xs ys

pub settles-append :
    (k : ℕ) (xs ys : List Effect) → settles k (xs ++ ys) ≡ settles k xs + settles k ys
settles-append k [] ys = omega arith
settles-append k (issued id ∷ xs) ys = settles-append k xs ys
settles-append k (resolved id env ∷ xs) ys = omega (arith, settles-append k xs ys)
settles-append k (rejected id ∷ xs) ys = omega (arith, settles-append k xs ys)
settles-append k (refused ∷ xs) ys = settles-append k xs ys
settles-append k (wrote b ∷ xs) ys = settles-append k xs ys
settles-append k (delivered h b ∷ xs) ys = settles-append k xs ys
settles-append k (link_closed h ∷ xs) ys = settles-append k xs ys

pub count-append : (k : ℕ) (xs ys : List ℕ) → count k (xs ++ ys) ≡ count k xs + count k ys
count-append k [] ys = omega arith
count-append k (x ∷ xs) ys = omega (arith, count-append k xs ys)

pub count-delete :
    (k j : ℕ) (xs : List ℕ) → count k (delete j xs) ≡ (if j == k then 0 else count k xs)
unfolding delete
count-delete k j [] = ground arith
count-delete k j (x ∷ xs) = ground (arith, count-delete k j xs)

pub member-count : (j : ℕ) (xs : List ℕ) → member j xs ≡ true → 1 ≤ count j xs
unfolding member
member-count j [] h = cc
member-count j (x ∷ xs) h = ground (arith, member-count j xs)

-- At most one request waits under the id, and none where the id is still to come.
abbrev pub IsTidy : ℕ → Connection → Type 0
IsTidy k c = (count k c.pending ≤ 1) × ((k < c.next_id) ⊎ (count k c.pending ≡ 0))

-- What was waiting or was issued is waiting or was settled; an id is issued once.
abbrev pub Balances : ℕ → Connection → Connection × List Effect → Type 0
Balances k c (d, es) =
    IsTidy k d
    × (count k d.pending + settles k es ≡ count k c.pending + issues k es)
    × (c.next_id ≤ d.next_id)
    × (issues k es ≤ 1)
    × ((c.next_id ≤ k) ⊎ (issues k es ≡ 0))
    × ((issues k es ≡ 0) ⊎ (k < d.next_id))

pub Balances-nothing : (k : ℕ) (c : Connection) → IsTidy k c → Balances k c (c, [])
Balances-nothing k c t = (t, omega arith, omega arith, omega arith, inr refl, inl refl)

pub Balances-then :
    (k : ℕ) (c d f : Connection) (es more : List Effect)
    → Balances k c (d, es)
    → Balances k d (f, more)
    → Balances k c (f, es ++ more)
Balances-then k c d f es more (t, b, n, i, z, l) (t2, b2, n2, i2, z2, l2) =
    let p = issues-append k es more in
    let q = settles-append k es more in
    (t2, omega arith, omega arith, omega arith, omega arith, omega arith)
