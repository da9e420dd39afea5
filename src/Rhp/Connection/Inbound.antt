-- ===== src/Rhp/Connection/Inbound.antt =====
-- What comes in on a connection of src/rhp/client.ts keeps the count of its requests.
use pdn_whatspac_client.Base.{
  ℕ, ◌+◌, ◌≤◌, ◌≡◌, refl, ap, Bool, true, false, Option, none, some, List, [], ◌∷◌, Bytes, codes,
  text_eq, ◌==◌, if◌then◌else◌, arith,
}
use pdn_whatspac_client.Js.Json.{Json, null, bool, num, str, arr, obj, Fields, get}
use pdn_whatspac_client.Rhp.Envelope.{Decoded, envelope, failed, decode_frame_body}
use pdn_whatspac_client.Rhp.Deframer
use pdn_whatspac_client.Rhp.Connection.{
  Connection, Effect, resolved, rejected, delivered, link_closed, member, delete, bytes_of, key_of,
  is_number, on_reply, on_recv, on_server_close, push_, dispatch, on_decoded, on_body, on_bodies,
  on_data, on_timeout,
}
use pdn_whatspac_client.Rhp.Connection.Counting.{
  count, issues, settles, count-delete, member-count, IsTidy, Balances, Balances-nothing,
  Balances-then,
}

settle_count :
    (k id : ℕ) (xs : List ℕ)
    → count k xs ≤ 1
    → member id xs ≡ true
    → count k (delete id xs) + ((if id == k then 1 else 0) + 0) ≡ count k xs
settle_count k id xs h m =
    let e = count-delete k id xs in let f = member-count id xs m in ground (arith, e, f)

settle-Balances :
    (k id : ℕ) (c : Connection) (e : Effect)
    → settles k (e ∷ []) ≡ (if id == k then 1 else 0) + 0
    → issues k (e ∷ []) ≡ 0
    → IsTidy k c
    → member id c.pending ≡ true
    → Balances k c (record c { pending = delete id c.pending }, e ∷ [])
settle-Balances k id c e s i t m =
    let f = settle_count k id c.pending t.0 m in
    ((omega arith, omega arith), omega arith, omega arith, omega arith, omega arith, omega arith)

pub if-Balances :
    (k : ℕ) (c : Connection) (b : Bool) (p q : Connection × List Effect)
    → (b ≡ true → Balances k c p)
    → (b ≡ false → Balances k c q)
    → Balances k c (if b then p else q)
if-Balances k c true p q h g = h refl
if-Balances k c false p q h g = g refl

-- Where neither requests nor the next id change, and nothing is issued or settled.
pub listeners-Balances :
    (k : ℕ) (c d : Connection) (es : List Effect)
    → IsTidy k c
    → d.pending ≡ c.pending
    → d.next_id ≡ c.next_id
    → settles k es ≡ 0
    → issues k es ≡ 0
    → Balances k c (d, es)
listeners-Balances k c d es t p n s i =
    let q = ap (count k) p in
    ((omega arith, omega arith), omega arith, omega arith, omega arith, omega arith, omega arith)

on_reply-Balances :
    (k : ℕ) (id : Option ℕ) (env : Fields) (c : Connection)
    → IsTidy k c
    → Balances k c (on_reply id env c)
unfolding on_reply
on_reply-Balances k none env c t = Balances-nothing k c t
on_reply-Balances k (some id) env c t =
    if-Balances k c (member id c.pending)
      (record c { pending = delete id c.pending }, resolved id env ∷ []) (c, [])
      (λ m. settle-Balances k id c (resolved id env) refl refl t m) (λ n. Balances-nothing k c t)

pub on_timeout-Balances : (k id : ℕ) (c : Connection) → IsTidy k c → Balances k c (on_timeout id c)
unfolding on_timeout
on_timeout-Balances k id c t =
    if-Balances k c (member id c.pending)
      (record c { pending = delete id c.pending }, rejected id ∷ []) (c, [])
      (λ m. settle-Balances k id c (rejected id) refl refl t m) (λ n. Balances-nothing k c t)

-- A push may call one listener.
abbrev IsCall : List Effect → Type 0
IsCall es = (k : ℕ) → (settles k es ≡ 0) × (issues k es ≡ 0)

if-IsCall : (b : Bool) (es : List Effect) → IsCall es → IsCall (if b then es else [])
if-IsCall true es h = h
if-IsCall false es h = λ k. (refl, refl)

on_recv-Balances :
    (k : ℕ) (handle : Option ℕ) (env : Fields) (c : Connection)
    → IsTidy k c
    → Balances k c (on_recv handle env c)
on_recv-Balances k none env c t = Balances-nothing k c t
on_recv-Balances k (some handle) env c t =
    let (s, i) =
      if-IsCall (member handle c.data_listeners)
        (delivered handle (bytes_of (get (codes "data") env)) ∷ []) (λ j. (refl, refl)) k in
    listeners-Balances k c c (on_recv (some handle) env c).1 t refl refl s i

on_server_close-Balances :
    (k : ℕ) (handle : Option ℕ) (c : Connection)
    → IsTidy k c
    → Balances k c (on_server_close handle c)
on_server_close-Balances k none c t = Balances-nothing k c t
on_server_close-Balances k (some handle) c t =
    let (s, i) =
      if-IsCall (member handle c.close_listeners) (link_closed handle ∷ []) (λ j. (refl, refl)) k in
    listeners-Balances k c (on_server_close (some handle) c).0 (on_server_close (some handle) c).1 t
      refl refl s i

push_-Balances :
    (k : ℕ) (type : Option Json) (env : Fields) (c : Connection)
    → IsTidy k c
    → Balances k c (push_ type env c)
push_-Balances k (some (str s)) env c t =
    let handle = key_of (get (codes "handle") env) in
    if-Balances k c (text_eq s (codes "recv")) (on_recv handle env c)
      (if text_eq s (codes "close") then on_server_close handle c else (c, []))
      (λ y. on_recv-Balances k handle env c t)
      (λ n.
        if-Balances k c (text_eq s (codes "close")) (on_server_close handle c) (c, [])
          (λ y. on_server_close-Balances k handle c t) (λ m. Balances-nothing k c t))
push_-Balances k none env c t = Balances-nothing k c t
push_-Balances k (some null) env c t = Balances-nothing k c t
push_-Balances k (some (bool b)) env c t = Balances-nothing k c t
push_-Balances k (some (num n w f)) env c t = Balances-nothing k c t
push_-Balances k (some (arr xs)) env c t = Balances-nothing k c t
push_-Balances k (some (obj fs)) env c t = Balances-nothing k c t

dispatch-Balances :
    (k : ℕ) (env : Fields) (c : Connection) → IsTidy k c → Balances k c (dispatch env c)
unfolding dispatch
dispatch-Balances k env c t =
    let id = get (codes "id") env in
    if-Balances k c (is_number id) (on_reply (key_of id) env c)
      (push_ (get (codes "type") env) env c) (λ y. on_reply-Balances k (key_of id) env c t)
      (λ n. push_-Balances k (get (codes "type") env) env c t)

on_decoded-Balances :
    (k : ℕ) (v : Decoded) (c : Connection) → IsTidy k c → Balances k c (on_decoded v c)
on_decoded-Balances k (envelope env) c t = dispatch-Balances k env c t
on_decoded-Balances k (failed e) c t = Balances-nothing k c t

on_body-Balances :
    (k : ℕ) (body : Bytes) (c : Connection) → IsTidy k c → Balances k c (on_body body c)
on_body-Balances k [] c t = Balances-nothing k c t
on_body-Balances k (b ∷ body) c t = on_decoded-Balances k (decode_frame_body (b ∷ body)) c t

on_bodies-Balances :
    (k : ℕ) (bs : List Bytes) (c : Connection) → IsTidy k c → Balances k c (on_bodies bs c)
unfolding on_bodies
on_bodies-Balances k [] c t = Balances-nothing k c t
on_bodies-Balances k (b ∷ bs) c t =
    let (d, es) = on_body b c in
    let (f, more) = on_bodies bs d in
    let one = on_body-Balances k b c t in
    Balances-then k c d f es more one (on_bodies-Balances k bs d one.0)

pub on_data-Balances :
    (k : ℕ) (bytes : Bytes) (c : Connection) → IsTidy k c → Balances k c (on_data bytes c)
unfolding on_data
on_data-Balances k bytes c t =
    let (bodies, buf) = Deframer.push c.deframer bytes in
    on_bodies-Balances k bodies (record c { deframer = buf }) t
