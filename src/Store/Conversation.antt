-- ===== src/Store/Conversation.antt =====
-- `conversationId` of src/store/store.ts.
use pdn_whatspac_client.Base.Splits.{NotIn}
use pdn_whatspac_client.Base.{
  ◌≡◌, ◌↔◌, refl, inl, inr, Bool, true, false, [], ◌∷◌, ◌++◌, ◌⊎◌, Text, ltb, ◌==◌, if◌then◌else◌,
  Bool-cases, arith,
}

-- The order of `sort()`: by UTF-16 code units.
unfoldable pub text_leb : Text → Text → Bool
text_leb [] b = true
text_leb (x ∷ a) [] = false
text_leb (x ∷ a) (y ∷ b) =
    let rest = text_leb a b in if ltb x y then true else if x == y then rest else false

-- `[a, b].sort().join("|")`; the sort is stable.
unfoldable pub conversation_id : Text → Text → Text
conversation_id a b = if text_leb a b then a ++ 124 ∷ b else b ++ 124 ∷ a

pub text_leb_antisym : (a b : Text) → text_leb a b ≡ true → text_leb b a ≡ true → a ≡ b
unfolding text_leb
text_leb_antisym [] [] h k = refl
text_leb_antisym [] (y ∷ b) h k = cc
text_leb_antisym (x ∷ a) [] h k = cc
text_leb_antisym (x ∷ a) (y ∷ b) h k = ground (arith, text_leb_antisym a b)

pub text_leb_total : (a b : Text) → text_leb a b ≡ false → text_leb b a ≡ true
unfolding text_leb
text_leb_total [] b h = cc
text_leb_total (x ∷ a) [] h = refl
text_leb_total (x ∷ a) (y ∷ b) h = ground (arith, text_leb_total a b)

-- The key of a conversation is the same from both ends.
pub conversation_id_comm : (a b : Text) → conversation_id a b ≡ conversation_id b a
unfolding conversation_id
conversation_id_comm a b = elim (Bool-cases (text_leb a b)) [
  | inl y ↦ elim (Bool-cases (text_leb b a)) [
    | inl z ↦ let e = text_leb_antisym a b y z in rw (y, z, e)
    | inr z ↦ rw (y, z)
  ]
  | inr n ↦ rw (n, text_leb_total a b n)
]

cut_at_bar :
    (a b c d : Text) → NotIn 124 a → NotIn 124 c → a ++ 124 ∷ b ≡ c ++ 124 ∷ d → (a ≡ c) × (b ≡ d)
cut_at_bar [] b [] d h k e = (refl, cc e)
cut_at_bar [] b (y ∷ c) d h k e = ground (arith, k, e)
cut_at_bar (x ∷ a) b [] d h k e = ground (arith, h, e)
cut_at_bar (x ∷ a) b (y ∷ c) d h k e =
    let tail : a ++ 124 ∷ b ≡ c ++ 124 ∷ d = cc e in
    let (p, q) = cut_at_bar a b c d h.1 k.1 tail in (cc (e, p), q)

pub conversation_id-cases :
    (a b : Text) → (conversation_id a b ≡ a ++ 124 ∷ b) ⊎ (conversation_id a b ≡ b ++ 124 ∷ a)
unfolding conversation_id
conversation_id-cases a b = elim (Bool-cases (text_leb a b)) [
  | inl y ↦ inl (rw y)
  | inr n ↦ inr (rw n)
]

pair_of_conversation_id :
    (a b c d : Text)
    → NotIn 124 a
    → NotIn 124 b
    → NotIn 124 c
    → NotIn 124 d
    → conversation_id a b ≡ conversation_id c d
    → ((a ≡ c) × (b ≡ d)) ⊎ ((a ≡ d) × (b ≡ c))
pair_of_conversation_id a b c d ha hb hc hd e = elim (conversation_id-cases a b) [
  | inl x ↦ elim (conversation_id-cases c d) [
    | inl y ↦ inl (cut_at_bar a b c d ha hc (cc (x, y, e)))
    | inr y ↦ inr (cut_at_bar a b d c ha hd (cc (x, y, e)))
  ]
  | inr x ↦ elim (conversation_id-cases c d) [
    | inl y ↦ let (p, q) = cut_at_bar b a c d hb hc (cc (x, y, e)) in inr (q, p)
    | inr y ↦ let (p, q) = cut_at_bar b a d c hb hd (cc (x, y, e)) in inl (q, p)
  ]
]

-- Two pairs of callsigns, none with a bar in it, have the same conversation exactly where they are
-- the same pair, in one order or the other.
pub conversation_id-pair :
    (a b c d : Text)
    → NotIn 124 a
    → NotIn 124 b
    → NotIn 124 c
    → NotIn 124 d
    → (conversation_id a b ≡ conversation_id c d) ↔ (((a ≡ c) × (b ≡ d)) ⊎ ((a ≡ d) × (b ≡ c)))
conversation_id-pair a b c d ha hb hc hd = (
  pair_of_conversation_id a b c d ha hb hc hd,
  λ p. elim p [
    | inl e ↦ let (x, y) = e in cc (x, y)
    | inr e ↦ let (x, y) = e in cc (x, y, conversation_id_comm a b)
  ],
)
