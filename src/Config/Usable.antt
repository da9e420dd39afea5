-- ===== src/Config/Usable.antt =====
-- What a configuration of src/config.ts is good for.
use pdn_whatspac_client.Base.{
  ◌≡◌, ◌≢◌, refl, ap, sym, ◌∙◌, subst, Option, none, some, List, [], ◌∷◌, ℕ, Text, codes, arith,
}
use pdn_whatspac_client.Js.Json.Parser.{parse}
use pdn_whatspac_client.Agent.Script.{ConnectScript, ScriptError, validate_connect_script}
use pdn_whatspac_client.Config.{
  Environment, ConfigError, no_callsign, Result, ok, err, ◌>>=◌, env_or, env, ◌or_else◌, or_throw,
  script_of, validated, checked, script_from_parts, script_from, load_connect_script, family_of,
  Config, converted, number_or, num_, host_port, config_of, load_config,
}

-- What a result that is there came through.
bind-ok {ℓ κ} :
    {A : Type ℓ} {B : Type κ} (first : Result A) (next : A → Result B) {c : B}
    → (first >>= next) ≡ ok c
    → (got : A) × (first ≡ ok got) × (next got ≡ ok c)
bind-ok (err thrown) next h = absurd (ground (arith, h))
bind-ok (ok got) next h = (got, refl, h)

-- What `env` finds is not empty.
abbrev IsText : Option Text → Type 0
IsText none = Unit {0}
IsText (some s) = s ≢ []

env_or-IsText : (o rest : Option Text) → IsText rest → IsText (env_or o rest)
env_or-IsText none rest h = h
env_or-IsText (some []) rest h = h
env_or-IsText (some (c ∷ s)) rest h = λ e. cc e

pub env-IsText : (e : Environment) (names : List Text) → IsText (env e names)
unfolding env
env-IsText e [] = tt
env-IsText e (name ∷ names) = env_or-IsText (e name) (env e names) (env-IsText e names)

pub or_else-ne-nil : (o : Option Text) (s : Text) → IsText o → s ≢ [] → (o or_else s) ≢ []
or_else-ne-nil none s h n = n
or_else-ne-nil (some t) s h n = h

or_throw-IsText :
    (o : Option Text) (e : ConfigError) (s : Text) → IsText o → or_throw o e ≡ ok s → s ≢ []
or_throw-IsText none e s h k = absurd (ground (arith, k))
or_throw-IsText (some t) e s h k = λ z. h (cc (k, z))

validated-ok :
    (v : Option ScriptError) (script s : ConnectScript)
    → validated v script ≡ ok s
    → (v ≡ none) × (script ≡ s)
validated-ok none script s h = (refl, cc h)
validated-ok (some e) script s h = absurd (ground (arith, h))

checked-ok : (script s : ConnectScript) → checked script ≡ ok s → validate_connect_script s ≡ none
checked-ok script s h =
    let (v, e) = validated-ok (validate_connect_script script) script s h in
    ap validate_connect_script (sym e) ∙ v

script_from-ok :
    (e : Environment) (o : Option Text) (s : ConnectScript)
    → script_from e o ≡ ok s
    → validate_connect_script s ≡ none
script_from-ok e none s h = checked-ok (script_from_parts e) s h
script_from-ok e (some raw) s h =
    let (script, read, check) = bind-ok (script_of (parse raw)) checked h in
    checked-ok script s check

-- A connect script that is loaded is one that the agent's constructor accepts.
pub load_connect_script-ok :
    (e : Environment) (s : ConnectScript)
    → load_connect_script e ≡ ok s
    → validate_connect_script s ≡ none
unfolding load_connect_script
load_connect_script-ok e s h = script_from-ok e (env e (codes "WHATSPACD_CONNECT_SCRIPT" ∷ [])) s h

valid-ne-nil : (s : ConnectScript) → validate_connect_script s ≡ none → s ≢ []
unfolding validate_connect_script
valid-ne-nil [] v e = absurd (ground (arith, v))
valid-ne-nil (h ∷ s) v e = cc e

module _ (N : Type 0) (to_number : Text → Option N) (whole : ℕ → N)
    (join : Text → Text → Text) where
  -- Everything that the daemon takes from it is there: the texts are not empty, the agent's
  -- constructor accepts the script, which has a first hop, and the web port is a number.
  pub record IsUsable (c : Config N to_number whole join) : Type 0 where
    pub callsign : c.callsign ≢ []
    pub local : c.local_callsign ≢ []
    pub name : c.display_name ≢ []
    pub rhp : c.rhp_host ≢ []
    pub web : c.web_host ≢ []
    pub script : validate_connect_script c.connect_script ≡ none
    pub first_hop : c.connect_script ≢ []
    pub port : c.web_port ≢ none

  converted-ne-none :
      (name : Text) (o p : Option N) → converted N to_number whole join name o ≡ ok p → p ≢ none
  converted-ne-none name none p h z = absurd (ground (arith, h))
  converted-ne-none name (some n) p h z = let w : some n ≡ p = cc h in absurd (ground (arith, w, z))

  number_or-ne-none :
      (name : Text) (o : Option Text) (fallback p : Option N)
      → fallback ≢ none
      → number_or N to_number whole join name o fallback ≡ ok p
      → p ≢ none
  number_or-ne-none name none fallback p n h z =
      let both : ok fallback ≡ ok p = h in n (cc (both, z))
  number_or-ne-none name (some v) fallback p n h z = converted-ne-none name (to_number v) p h z

  -- A configuration that is loaded has no empty callsign, name or host, a script that the agent's
  -- constructor accepts and that has a first hop, and a web port that is a number.
  pub load_config-IsUsable :
      (e : Environment) (c : Config N to_number whole join)
      → load_config N to_number whole join e ≡ ok c
      → IsUsable c
  unfolding load_config
  load_config-IsUsable e c h =
      let (callsign, found, h1) =
        bind-ok (or_throw (env e (codes "WHATSPACD_CALLSIGN" ∷ [])) no_callsign) _ h in
      let (family, known, h2) =
        bind-ok (family_of (env e (codes "WHATSPACD_FAMILY" ∷ []) or_else codes "ax25")) _ h1 in
      let (rhp_port, number, h3) =
        bind-ok
          (num_ N to_number whole join e (codes "WHATSPACD_RHP_PORT")
            (host_port N to_number whole join (env e (codes "PDN_RHP_PORT" ∷ []))))
          _ h2 in
      let (script, loaded, h4) = bind-ok (load_connect_script e) _ h3 in
      let (web_port, finite, h5) =
        bind-ok (num_ N to_number whole join e (codes "WHATSPACD_WEB_PORT") (some (whole 18900))) _
          h4 in
      let named =
        or_throw-IsText (env e (codes "WHATSPACD_CALLSIGN" ∷ [])) no_callsign callsign
          (env-IsText e (codes "WHATSPACD_CALLSIGN" ∷ [])) found in
      let valid = load_connect_script-ok e script loaded in
      let same : config_of N to_number whole join e callsign family rhp_port script web_port ≡ c =
        cc h5 in
      subst IsUsable same (record {
        callsign = named;
        local =
            or_else-ne-nil
              (env e (codes "WHATSPACD_LOCAL_CALLSIGN" ∷ codes "PDN_NODE_CALLSIGN" ∷ [])) callsign
              (env-IsText e (codes "WHATSPACD_LOCAL_CALLSIGN" ∷ codes "PDN_NODE_CALLSIGN" ∷ []))
              named;
        name =
            or_else-ne-nil (env e (codes "WHATSPACD_NAME" ∷ [])) callsign
              (env-IsText e (codes "WHATSPACD_NAME" ∷ [])) named;
        rhp =
            or_else-ne-nil (env e (codes "WHATSPACD_RHP_HOST" ∷ codes "PDN_RHP_HOST" ∷ []))
              (codes "127.0.0.1")
              (env-IsText e (codes "WHATSPACD_RHP_HOST" ∷ codes "PDN_RHP_HOST" ∷ [])) (λ z. cc z);
        web =
            or_else-ne-nil (env e (codes "WHATSPACD_WEB_HOST" ∷ [])) (codes "127.0.0.1")
              (env-IsText e (codes "WHATSPACD_WEB_HOST" ∷ [])) (λ z. cc z);
        script = valid;
        first_hop = valid-ne-nil script valid;
        port =
            number_or-ne-none (codes "WHATSPACD_WEB_PORT") (env e (codes "WHATSPACD_WEB_PORT" ∷ []))
              (some (whole 18900)) web_port (λ z. absurd (ground (arith, z))) finite;
      })
