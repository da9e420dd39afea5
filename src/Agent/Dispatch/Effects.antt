-- ===== src/Agent/Dispatch/Effects.antt =====
-- The enquiry for a name that `dispatch` of src/agent/agent.ts sends.
use pdn_whatspac_client.Base.{ℕ, ◌≡◌, ap, ◌∙◌, none, some, [], ◌∷◌, Text, if◌then◌else◌}
use pdn_whatspac_client.Protocol.Messages.{Avatar, avatar}
use pdn_whatspac_client.Store.{Store, ham_unknown, upsert_avatar}
use pdn_whatspac_client.Store.Lookups.{ham_unknown-upsert_avatar}
use pdn_whatspac_client.Agent.Dispatch.{name_enquiry, enquiry, on_avatar, dispatch}

-- A pushed avatar sends an enquiry for a name exactly where the store had no name for its
-- callsign before.
pub dispatch-avatar :
    (x : ℕ) (c : Text) (a : Avatar) (s : Store)
    → a.c ≡ some (x ∷ c)
    → a.ac ≡ none
    → (dispatch (avatar a) s).1 ≡ (if ham_unknown (x ∷ c) s then name_enquiry (x ∷ c) ∷ [] else [])
unfolding dispatch
dispatch-avatar x c a s e n =
    ap (λ k. (on_avatar k a s).1) n
    ∙ ap (λ k. enquiry k (upsert_avatar a s)) e
    ∙ ap (λ b. if b then name_enquiry (x ∷ c) ∷ [] else []) (ham_unknown-upsert_avatar a s (x ∷ c))
