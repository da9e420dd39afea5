-- ===== src/Store/Lookups.antt =====
-- What the calls of src/store/store.ts leave to be read.
use pdn_whatspac_client.Base.{
  ◌≡◌, refl, sym, ap, ◌∙◌, inl, inr, false, Option, none, some, [], ◌∷◌, text_eq, text_eq_iff,
  Bool-cases, if◌then◌else◌,
}
use pdn_whatspac_client.Protocol.Messages.{Callsign, HamName, Avatar, DirectMessage}
use pdn_whatspac_client.Store.Rows.{upsert, find, find-upsert, find-upsert_other, upsert_twice}
use pdn_whatspac_client.Store.{
  Store, HamRow, ham_row, update_ham, upsert_ham, avatar_row, update_avatar, upsert_avatar_of,
  upsert_avatar, ham_unknown, unknown_row, message_row, update_message, put_direct_message,
}

-- A message that comes again changes nothing.
pub put_direct_message_twice :
    (d : DirectMessage) (s : Store)
    → put_direct_message d (put_direct_message d s) ≡ put_direct_message d s
put_direct_message_twice d s =
    ap (λ rows. record s { messages = rows })
      (upsert_twice (λ q. q.id) (update_message d) (message_row d) s.messages (λ q. refl)
        (λ q. refl) refl)

-- The row of a message that is put: the first that came under its id, with the last text.
pub find-put_direct_message :
    (d e : DirectMessage) (s : Store)
    → (message_row e).id ≡ (message_row d).id
    → find (λ q. q.id) (message_row d).id s.messages ≡ none
    → find (λ q. q.id) (message_row d).id (put_direct_message e (put_direct_message d s)).messages
      ≡ some (record (message_row d) { m = e.m })
find-put_direct_message d e s same fresh =
    let rows = upsert (λ q. q.id) (update_message d) (message_row d) s.messages in
    let first : find (λ q. q.id) (message_row d).id rows ≡ some (message_row d) =
      find-upsert (λ q. q.id) (update_message d) (message_row d) s.messages (λ q. refl)
      ∙ rw fresh in
    ap (λ k. find (λ q. q.id) k (upsert (λ q. q.id) (update_message e) (message_row e) rows))
      (sym same)
    ∙ find-upsert (λ q. q.id) (update_message e) (message_row e) rows (λ q. refl)
    ∙ rw (same, first)

-- A name makes its callsign known, and no other callsign more or less so.
pub ham_unknown-upsert_ham :
    (h : HamName) (s : Store) (k : Callsign)
    → ham_unknown k (upsert_ham h s) ≡ (if text_eq h.c k then false else ham_unknown k s)
unfolding ham_unknown
ham_unknown-upsert_ham h s k = elim (Bool-cases (text_eq h.c k)) [
  | inl y ↦
      let same = find-upsert (λ q. q.c) (update_ham h) (ham_row h) s.hams (λ q. refl) in
      rw y (
        ap (λ c. unknown_row (find (λ q. q.c) c (upsert_ham h s).hams))
          (sym ((text_eq_iff h.c k).0 y))
        ∙ ap unknown_row same
        ∙ named (find (λ q. q.c) h.c s.hams))
  | inr n ↦ rw (n, find-upsert_other (λ q. q.c) (update_ham h) (ham_row h) k s.hams (λ q. refl) n)
]
  where
    named :
        (o : Option HamRow)
        → unknown_row (some (elim o [ none ↦ ham_row h | some r ↦ update_ham h r ])) ≡ false
    named none = refl
    named (some r) = refl

upsert_avatar_of-unknown :
    (o : Option Callsign) (a : Avatar) (s : Store) (k : Callsign)
    → ham_unknown k (upsert_avatar_of o a s) ≡ ham_unknown k s
unfolding ham_unknown
upsert_avatar_of-unknown none a s k = refl
upsert_avatar_of-unknown (some []) a s k = refl
upsert_avatar_of-unknown (some (x ∷ c)) a s k = elim (Bool-cases (text_eq (x ∷ c) k)) [
  | inl y ↦
      let same =
        find-upsert (λ q. q.c) (update_avatar a) (avatar_row (x ∷ c) a) s.hams (λ q. refl) in
      let e = (text_eq_iff (x ∷ c) k).0 y in
      ap (λ i. unknown_row (find (λ q. q.c) i (upsert_avatar_of (some (x ∷ c)) a s).hams)) (sym e)
      ∙ ap unknown_row same
      ∙ unnamed (find (λ q. q.c) (x ∷ c) s.hams)
      ∙ ap (λ i. unknown_row (find (λ q. q.c) i s.hams)) e
  | inr n ↦
      ap unknown_row (
        find-upsert_other (λ q. q.c) (update_avatar a) (avatar_row (x ∷ c) a) k s.hams (λ q. refl)
          n)
]
  where
    unnamed :
        (o : Option HamRow)
        → unknown_row (some (elim o [ none ↦ avatar_row (x ∷ c) a | some r ↦ update_avatar a r ]))
          ≡ unknown_row o
    unnamed none = refl
    unnamed (some r) = refl

-- An avatar makes no callsign known: the row that it makes has no name.
pub ham_unknown-upsert_avatar :
    (a : Avatar) (s : Store) (k : Callsign) → ham_unknown k (upsert_avatar a s) ≡ ham_unknown k s
ham_unknown-upsert_avatar a s k = upsert_avatar_of-unknown a.c a s k
