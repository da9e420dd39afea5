-- ===== src/Store/Cursors.antt =====
-- `getConnectCursors` of src/store/store.ts.
use pdn_whatspac_client.Base.{
  ℕ, ◌≡◌, ◌≤◌, ◌↔◌, refl, inl, inr, Bool, Option, none, some, List, [], ◌∷◌, map, Text, All,
  All-map, text_eq, Bool-cases, arith,
}
use pdn_whatspac_client.Protocol.Messages.{Avatar}
use pdn_whatspac_client.Store.Rows.{greatest, greatest-upsert, greatest-least, greatest-bounds}
use pdn_whatspac_client.Store.{
  Store, empty, ChannelRow, PostRow, upsert_avatar_of, avatar_row, update_avatar, ham_row,
  update_ham, message_row, update_message, set_online,
}
use pdn_whatspac_client.Store.Queries.{sql_leb, where_, order_by, last_avatar_ts}
use pdn_whatspac_client.Store.Operations.{
  run-IsWellFormed, empty-IsWellFormed, Operation, config, user, online_are, online_is, offline_is,
  ham, avatar, header, subscription, message, post, apply, run,
}

pub record ChannelCursor : Type 0 where
  pub cid : Text
  pub lp : ℕ
  pub le : ℕ
  pub led : ℕ

pub record ConnectCursors : Type 0 where
  pub lm : ℕ
  pub le : ℕ
  pub led : ℕ
  pub lhts : ℕ
  pub cc : List ChannelCursor

-- `maxFor` on the posts of one channel.
unfoldable pub max_for : (PostRow → ℕ) → Text → List PostRow → ℕ
max_for value cid posts = greatest value (where_ (λ q. text_eq q.cid cid) posts)

abbrev pub channel_cursor : List PostRow → ChannelRow → ChannelCursor
channel_cursor posts c = record {
  cid = c.cid;
  lp = max_for (λ q. q.ts) c.cid posts;
  le = max_for (λ q. q.ets) c.cid posts;
  led = max_for (λ q. q.edts) c.cid posts;
}

unfoldable pub get_connect_cursors : Store → ConnectCursors
get_connect_cursors s = record {
  lm = greatest (λ q. q.ts) s.messages;
  le = greatest (λ q. q.ets) s.messages;
  led = greatest (λ q. q.edts) s.messages;
  lhts = greatest (λ q. q.ts) s.hams;
  cc =
      map (channel_cursor s.posts)
        (order_by (λ a b. sql_leb a.cid b.cid) (where_ (λ c. c.subscribed) s.channels));
}

-- What the cursors of the first store ask for is no later than what those of the second do.
abbrev pub Later : Store → Store → Type 0
Later s t =
    (greatest (λ q. q.ts) s.messages ≤ greatest (λ q. q.ts) t.messages)
    × (greatest (λ q. q.ts) s.hams ≤ greatest (λ q. q.ts) t.hams)
    × (greatest (λ q. q.ats) s.hams ≤ greatest (λ q. q.ats) t.hams)

Later-same : (s : Store) → Later s s
Later-same s = (omega arith, omega arith, omega arith)

avatar-Later : (o : Option Text) (a : Avatar) (s : Store) → Later s (upsert_avatar_of o a s)
avatar-Later none a s = Later-same s
avatar-Later (some []) a s = Later-same s
avatar-Later (some (x ∷ c)) a s = (
  omega arith,
  greatest-upsert (λ q. q.c) (λ q. q.ts) (update_avatar a) (avatar_row (x ∷ c) a) s.hams
      (λ q. omega arith),
  greatest-upsert (λ q. q.c) (λ q. q.ats) (update_avatar a) (avatar_row (x ∷ c) a) s.hams
      (λ q. omega arith),
)

apply-Later : (op : Operation) (s : Store) → Later s (apply op s)
unfolding apply set_online
apply-Later (config key v) s = Later-same s
apply-Later (user x) s = Later-same s
apply-Later (online_are cs) s = Later-same s
apply-Later (online_is c) s = Later-same s
apply-Later (offline_is c) s = Later-same s
apply-Later (ham x) s = (
  omega arith,
  greatest-upsert (λ q. q.c) (λ q. q.ts) (update_ham x) (ham_row x) s.hams (λ q. omega arith),
  greatest-upsert (λ q. q.c) (λ q. q.ats) (update_ham x) (ham_row x) s.hams (λ q. omega arith),
)
apply-Later (avatar a) s = avatar-Later a.c a s
apply-Later (header x) s = Later-same s
apply-Later (subscription cid b) s = Later-same s
apply-Later (message d) s = (
  greatest-upsert (λ q. q.id) (λ q. q.ts) (update_message d) (message_row d) s.messages
      (λ q. omega arith),
  omega arith,
  omega arith,
)
apply-Later (post d) s = Later-same s

-- Whatever calls are made, the cursors for messages and names, and the time of the newest avatar,
-- do not go back.
pub run-Later :
    (ops : List Operation) (s : Store)
    → ((get_connect_cursors s).lm ≤ (get_connect_cursors (run ops s)).lm)
      × ((get_connect_cursors s).lhts ≤ (get_connect_cursors (run ops s)).lhts)
      × (last_avatar_ts s ≤ last_avatar_ts (run ops s))
unfolding get_connect_cursors run
run-Later [] s = Later-same s
run-Later (op ∷ ops) s =
    let (a, b, c) = apply-Later op s in
    let (d, e, f) = run-Later ops (apply op s) in (omega arith, omega arith, omega arith)

greatest_zero :
    {R : Type 0} (value : R → ℕ) (rows : List R)
    → All (λ r. value r ≡ 0) rows
    → greatest value rows ≡ 0
unfolding greatest
greatest_zero value [] h = refl
greatest_zero value (r ∷ rows) h = omega (arith, h.0, greatest_zero value rows h.1)

where_-keeps :
    (P : PostRow → Type 0) (test : PostRow → Bool) (rows : List PostRow)
    → All P rows
    → All P (where_ test rows)
unfolding where_
where_-keeps P test [] h = tt
where_-keeps P test (r ∷ rows) h = elim (Bool-cases (test r)) [
  | inl y ↦ rw y (h.0, where_-keeps P test rows h.1)
  | inr n ↦ rw n (where_-keeps P test rows h.1)
]

channel_cursors-zero :
    (posts : List PostRow) (rows : List ChannelRow)
    → All (λ q. (q.ets ≡ 0) × (q.edts ≡ 0)) posts
    → All (λ c. (c.le ≡ 0) × (c.led ≡ 0)) (map (channel_cursor posts) rows)
unfolding max_for
channel_cursors-zero posts [] h = tt
channel_cursors-zero posts (r ∷ rows) h =
    let mine : PostRow → Bool = λ q. text_eq q.cid r.cid in
    let left = where_-keeps (λ q. (q.ets ≡ 0) × (q.edts ≡ 0)) mine posts h in
    (
      (
        greatest_zero (λ q. q.ets) (where_ mine posts)
            (All-map (λ q. (q.ets ≡ 0) × (q.edts ≡ 0)) (λ q. q.ets ≡ 0) (where_ mine posts)
              (λ q e. e.0) left),
        greatest_zero (λ q. q.edts) (where_ mine posts)
            (All-map (λ q. (q.ets ≡ 0) × (q.edts ≡ 0)) (λ q. q.edts ≡ 0) (where_ mine posts)
              (λ q e. e.1) left),
      ),
      channel_cursors-zero posts rows h,
    )

-- Whatever calls are made of a new database, the cursors for reactions and edits, of the direct
-- messages and of every channel, stay 0.
pub cursors-untouched :
    (ops : List Operation)
    → let cursors = get_connect_cursors (run ops empty) in
      (cursors.le ≡ 0) × (cursors.led ≡ 0) × All (λ c. (c.le ≡ 0) × (c.led ≡ 0)) cursors.cc
unfolding get_connect_cursors
cursors-untouched ops =
    let s = run ops empty in
    let (m, p) = (run-IsWellFormed ops empty empty-IsWellFormed).1 in
    (
      greatest_zero (λ q. q.ets) s.messages
          (All-map (λ q. (q.ets ≡ 0) × (q.edts ≡ 0)) (λ q. q.ets ≡ 0) s.messages (λ q e. e.0) m),
      greatest_zero (λ q. q.edts) s.messages
          (All-map (λ q. (q.ets ≡ 0) × (q.edts ≡ 0)) (λ q. q.edts ≡ 0) s.messages (λ q e. e.1) m),
      channel_cursors-zero s.posts
          (order_by (λ a b. sql_leb a.cid b.cid) (where_ (λ c. c.subscribed) s.channels)) p,
    )

-- The cursor of a channel is the least time that no post of the channel is later than.
pub max_for-IsLeast :
    (cid : Text) (posts : List PostRow) (n : ℕ)
    → (max_for (λ q. q.ts) cid posts ≤ n)
      ↔ All (λ q. q.ts ≤ n) (where_ (λ q. text_eq q.cid cid) posts)
unfolding max_for
max_for-IsLeast cid posts n =
    let mine = where_ (λ q. text_eq q.cid cid) posts in
    (
      λ h.
          All-map (λ q. q.ts ≤ greatest (λ q. q.ts) mine) (λ q. q.ts ≤ n) mine (λ q l. omega arith)
            (greatest-bounds (λ q. q.ts) mine),
      λ h. greatest-least (λ q. q.ts) n mine h,
    )
