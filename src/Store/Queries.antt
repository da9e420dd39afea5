-- ===== src/Store/Queries.antt =====
-- The queries of src/store/store.ts. `ORDER BY` is an insertion sort; rows that are equal under it
-- stand in an order that SQL leaves open.
pub mod Listing
use pdn_whatspac_client.Base.{
  ℕ, suc, ◌≡◌, refl, ap, ◌∙◌, ◌++◌, ◌≤◌, inl, inr, Bool, true, false, Option, List, [], ◌∷◌, Text,
  All, All-map, All-take, zero, length, length-take, take, leb, text_eq, if◌then◌else◌, Bool-cases,
  arith,
}
use pdn_whatspac_client.Js.Utf8.{encode}
use pdn_whatspac_client.Protocol.Messages.{Callsign}
use pdn_whatspac_client.Store.Rows.{find, greatest}
use pdn_whatspac_client.Store.Conversation.{text_leb}
use pdn_whatspac_client.Store.{Store, HamRow, ChannelRow, MessageRow, PostRow}

module _ {R : Type 0} where
  -- `WHERE`.
  unfoldable pub where_ : (R → Bool) → List R → List R
  where_ test [] = []
  where_ test (r ∷ rows) = let rest = where_ test rows in if test r then r ∷ rest else rest

  insert : (R → R → Bool) → R → List R → List R
  insert before r [] = r ∷ []
  insert before r (q ∷ rows) =
      let rest = insert before r rows in if before r q then r ∷ q ∷ rows else q ∷ rest

  -- `ORDER BY`.
  unfoldable pub order_by : (R → R → Bool) → List R → List R
  unfolding insert
  order_by before [] = []
  order_by before (r ∷ rows) = insert before r (order_by before rows)

  -- Each row before all that follow it.
  abbrev pub IsOrdered : (R → R → Bool) → List R → Type 0
  IsOrdered before [] = Unit
  IsOrdered before (r ∷ rows) = All (λ q. before r q ≡ true) rows × IsOrdered before rows

  insert-All {κ} :
      (P : R → Type κ) (before : R → R → Bool) (r : R) (rows : List R)
      → P r
      → All P rows
      → All P (insert before r rows)
  unfolding insert
  insert-All P before r [] p h = (p, tt)
  insert-All P before r (q ∷ rows) p h = elim (Bool-cases (before r q)) [
    | inl y ↦ rw y (p, h)
    | inr n ↦ rw n (h.0, insert-All P before r rows p h.1)
  ]

  pub order_by-All {κ} :
      (P : R → Type κ) (before : R → R → Bool) (rows : List R)
      → All P rows
      → All P (order_by before rows)
  unfolding order_by
  order_by-All P before [] h = tt
  order_by-All P before (r ∷ rows) h =
      insert-All P before r (order_by before rows) h.0 (order_by-All P before rows h.1)

  module _ (before : R → R → Bool) (total : (r q : R) → before r q ≡ false → before q r ≡ true)
      (trans : (r q t : R) → before r q ≡ true → before q t ≡ true → before r t ≡ true) where
    insert-IsOrdered :
        (r : R) (rows : List R) → IsOrdered before rows → IsOrdered before (insert before r rows)
    unfolding insert
    insert-IsOrdered r [] h = (tt, tt)
    insert-IsOrdered r (q ∷ rows) h = elim (Bool-cases (before r q)) [
      | inl y ↦ rw y (
        (
          y,
          All-map (λ t. before q t ≡ true) (λ t. before r t ≡ true) rows (λ t. trans r q t y) h.0,
        ),
        h,
      )
      | inr n ↦ rw n (
        insert-All (λ t. before q t ≡ true) before r rows (total r q n) h.0,
        insert-IsOrdered r rows h.1,
      )
    ]

    pub order_by-IsOrdered : (rows : List R) → IsOrdered before (order_by before rows)
    unfolding order_by
    order_by-IsOrdered [] = tt
    order_by-IsOrdered (r ∷ rows) =
        insert-IsOrdered r (order_by before rows) (order_by-IsOrdered rows)

  insert-behind :
      (before : R → R → Bool) (r x : R) (rows : List R)
      → before r x ≡ false
      → insert before r (x ∷ rows) ≡ x ∷ insert before r rows
  unfolding insert
  insert-behind before r x rows n = rw n

  -- A row behind the others that comes before none of them in the table, but before all in the
  -- order, is put in front.
  pub order_by-last :
      (before : R → R → Bool) (rows : List R) (x : R)
      → All (λ r. before r x ≡ false) rows
      → order_by before (rows ++ x ∷ []) ≡ x ∷ order_by before rows
  unfolding order_by insert
  order_by-last before [] x h = refl
  order_by-last before (r ∷ rows) x h =
      ap (insert before r) (order_by-last before rows x h.1)
      ∙ insert-behind before r x (order_by before rows) h.0

  pub where_-last :
      (test : R → Bool) (rows : List R) (x : R)
      → test x ≡ true
      → where_ test (rows ++ x ∷ []) ≡ where_ test rows ++ x ∷ []
  unfolding where_
  where_-last test [] x h = rw h
  where_-last test (r ∷ rows) x h = elim (Bool-cases (test r)) [
    | inl y ↦ rw y (ap (λ t. r ∷ t) (where_-last test rows x h))
    | inr n ↦ rw n (where_-last test rows x h)
  ]

-- `ORDER BY ts DESC`.
abbrev pub newer_message : MessageRow → MessageRow → Bool
newer_message a b = leb b.ts a.ts

abbrev pub newer_post : PostRow → PostRow → Bool
newer_post a b = leb b.ts a.ts

-- SQLite's order of texts: the bytes of their UTF-8.
abbrev pub sql_leb : Text → Text → Bool
sql_leb a b = text_leb (encode a) (encode b)

-- `onlineCallsigns`.
abbrev pub online_callsigns : Store → List Callsign
online_callsigns s = order_by sql_leb s.online

-- `listChannels`.
abbrev pub list_channels : Store → List ChannelRow
list_channels s = order_by (λ a b. sql_leb a.cid b.cid) s.channels

-- `listPosts`.
unfoldable pub list_posts : Text → ℕ → Store → List PostRow
list_posts cid limit s = take limit (order_by newer_post (where_ (λ q. text_eq q.cid cid) s.posts))

-- `listDirectMessages`.
unfoldable pub list_direct_messages : Text → ℕ → Store → List MessageRow
list_direct_messages sid limit s =
    take limit (order_by newer_message (where_ (λ q. text_eq q.sid sid) s.messages))

-- `countPosts`.
abbrev pub count_posts : Text → Store → ℕ
count_posts cid s = length (where_ (λ q. text_eq q.cid cid) s.posts)

-- `lastAvatarTs`.
abbrev pub last_avatar_ts : Store → ℕ
last_avatar_ts s = greatest (λ q. q.ats) s.hams

-- `getHam`.
abbrev pub get_ham : Callsign → Store → Option HamRow
get_ham c s = find (λ q. q.c) c s.hams
