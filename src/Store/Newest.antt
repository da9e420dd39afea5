-- ===== src/Store/Newest.antt =====
-- A new post in the queries of src/store/store.ts.
use pdn_whatspac_client.Base.{
  ℕ, suc, ◌≡◌, ◌<◌, ap, ◌∙◌, false, List, [], ◌∷◌, Text, All, All-map, take, text_eq, text_eq_refl,
  arith, inl, inr, Bool-cases,
}
use pdn_whatspac_client.Protocol.Messages.{ChannelPost}
use pdn_whatspac_client.Store.Rows.{Absent, upsert_new}
use pdn_whatspac_client.Store.{Store, PostRow, post_row, update_post, put_post}
use pdn_whatspac_client.Store.Queries.{
  where_, order_by, newer_post, list_posts, order_by-last, where_-last,
}

older :
    (cid : Text) (ts : ℕ) (rows : List PostRow)
    → All (λ q. q.ts < ts) rows
    → All (λ q. q.ts < ts) (where_ (λ q. text_eq q.cid cid) rows)
unfolding where_
older cid ts [] h = tt
older cid ts (r ∷ rows) h = elim (Bool-cases (text_eq r.cid cid)) [
  | inl y ↦ rw y (h.0, older cid ts rows h.1)
  | inr n ↦ rw n (older cid ts rows h.1)
]

-- A post with a new id, later than all others, is the first of its channel.
pub list_posts-put_post :
    (p : ChannelPost) (limit : ℕ) (s : Store)
    → Absent (λ q. q.id) ((post_row p).id) s.posts
    → All (λ q. q.ts < (post_row p).ts) s.posts
    → list_posts p.cid (suc limit) (put_post p s) ≡ post_row p ∷ list_posts p.cid limit s
unfolding list_posts
list_posts-put_post p limit s a h =
    let row = post_row p in
    ap (λ rows. take (suc limit) (order_by newer_post (where_ (λ q. text_eq q.cid p.cid) rows)))
      (upsert_new (λ q. q.id) (update_post p) row s.posts a)
    ∙ ap (λ rows. take (suc limit) (order_by newer_post rows))
        (where_-last (λ q. text_eq q.cid p.cid) s.posts row (text_eq_refl p.cid))
    ∙ ap (take (suc limit)) (
        order_by-last newer_post (where_ (λ q. text_eq q.cid p.cid) s.posts) row (
          All-map (λ q. q.ts < row.ts) (λ q. newer_post q row ≡ false)
            (where_ (λ q. text_eq q.cid p.cid) s.posts) (λ q l. ground (arith, l))
            (older p.cid row.ts s.posts h)))
