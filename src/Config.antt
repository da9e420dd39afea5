-- ===== src/Config.antt =====
-- `loadConfig` of src/config.ts, from the environment. JavaScript's `Number`, with `none` for what is
-- not finite, and the path join of Node are parameters; so is the type of its numbers.
pub mod Usable
pub mod Loads
use pdn_whatspac_client.Base.{
  ℕ, zero, Bool, true, false, Option, none, some, List, [], ◌∷◌, ◌++◌, Text, codes, text_eq, ◌==◌,
  if◌then◌else◌,
}
use pdn_whatspac_client.Js.Json.{
  Json, null, bool, str, num, arr, obj, Items, nil, cons, Fields, get,
}
use pdn_whatspac_client.Js.Json.Parser.{parse}
use pdn_whatspac_client.Rhp.Requests.{AddressFamily, ax25, netrom}
use pdn_whatspac_client.Agent.Script.{Hop, ConnectScript, ScriptError, validate_connect_script}

-- `process.env`.
abbrev pub Environment : Type 0
Environment = Text → Option Text

-- What `loadConfig` throws. `hop_not_text` is a value of another type in a hop, which the code lets
-- through.
pub data ConfigError : Type 0 where
  no_callsign : ConfigError
  bad_family : Text → ConfigError
  not_a_number : Text → ConfigError
  script_not_json script_not_array script_null_hop hop_not_text : ConfigError
  bad_script : ScriptError → ConfigError

pub data Result {ℓ} (A : Type ℓ) : Type ℓ where
  err : ConfigError → Result A
  ok : A → Result A

infixl 5 ◌>>=◌
abbrev pub ◌>>=◌ {ℓ κ} : {A : Type ℓ} {B : Type κ} → Result A → (A → Result B) → Result B
(err thrown) >>= next = err thrown
(ok got) >>= next = next got

-- `env`: the first of the names that is set to a text that is not empty.
abbrev pub env_or : Option Text → Option Text → Option Text
env_or (some (c ∷ s)) rest = some (c ∷ s)
env_or _ rest = rest

unfoldable pub env : Environment → List Text → Option Text
env e [] = none
env e (name ∷ names) = env_or (e name) (env e names)

infixl 20 ◌or_else◌
abbrev pub ◌or_else◌ {ℓ} : {A : Type ℓ} → Option A → A → A
none or_else b = b
(some a) or_else b = a

abbrev pub or_throw {ℓ} : {A : Type ℓ} → Option A → ConfigError → Result A
or_throw none e = err e
or_throw (some a) e = ok a

-- `cmd` and `val` of a hop that JSON gave: what is falsy counts as missing.
abbrev pub hop_text : Option Json → Result Text
hop_text none = ok []
hop_text (some null) = ok []
hop_text (some (bool false)) = ok []
hop_text (some (num negative zero [])) = ok []
hop_text (some (str s)) = ok s
hop_text (some v) = err hop_not_text

abbrev pub hop_of : Json → Result Hop
hop_of null = err script_null_hop
hop_of (obj fs) = do
  cmd ← hop_text (get (codes "cmd") fs)
  val ← hop_text (get (codes "val") fs)
  ok (record { cmd = cmd; val = val })
hop_of v = ok (record { cmd = []; val = [] })

abbrev pub hops_of : Items → Result ConnectScript
hops_of nil = ok []
hops_of (cons v vs) = do hop ← hop_of v; hops ← hops_of vs; ok (hop ∷ hops)

abbrev pub script_of : Option Json → Result ConnectScript
script_of none = err script_not_json
script_of (some (arr vs)) = hops_of vs
script_of (some v) = err script_not_array

-- `validateConnectScript`, which throws.
abbrev pub validated : Option ScriptError → ConnectScript → Result ConnectScript
validated none script = ok script
validated (some e) script = err (bad_script e)

abbrev pub checked : ConnectScript → Result ConnectScript
checked script = validated (validate_connect_script script) script

-- The script of the node's call, its banner and the call of WPS.
abbrev pub script_from_parts : Environment → ConnectScript
script_from_parts e =
    let node = env e (codes "WHATSPACD_NODE_CALL" ∷ []) or_else codes "GB7NBH" in
    let banner = env e (codes "WHATSPACD_NODE_BANNER" ∷ []) or_else node in
    let wps = env e (codes "WHATSPACD_WPS_CALL" ∷ []) or_else codes "MB7NPW-9" in
    record { cmd = node; val = banner }
    ∷ record { cmd = codes "C " ++ wps; val = codes "*** Connected" }
    ∷ []

abbrev pub script_from : Environment → Option Text → Result ConnectScript
script_from e none = checked (script_from_parts e)
script_from e (some raw) = do script ← script_of (parse raw); checked script

-- `loadConnectScript`.
unfoldable pub load_connect_script : Environment → Result ConnectScript
load_connect_script e = script_from e (env e (codes "WHATSPACD_CONNECT_SCRIPT" ∷ []))

abbrev pub family_of : Text → Result AddressFamily
family_of s =
    if text_eq s (codes "ax25")
    then ok ax25
    else if text_eq s (codes "netrom")
    then ok netrom
    else err (bad_family s)

abbrev pub auth_of : Option Text → Option Text → Option (Text × Text)
auth_of none pass = none
auth_of (some user) pass = some (user, pass or_else [])

module _ (N : Type 0) (to_number : Text → Option N) (whole : ℕ → N)
    (join : Text → Text → Text) where
  -- `Config`. A port that is `none` is not a finite number.
  pub record Config : Type 0 where
    pub rhp_host : Text
    pub rhp_port : Option N
    pub auth : Option (Text × Text)
    pub family : AddressFamily
    pub local_callsign : Text
    pub callsign : Text
    pub display_name : Text
    pub connect_script : ConnectScript
    pub bearer_port : Option Text
    pub db_path : Text
    pub log_level : Text
    pub web_host : Text
    pub web_port : Option N
    pub socket_path : Text

  abbrev pub converted : Text → Option N → Result (Option N)
  converted name none = err (not_a_number name)
  converted name (some n) = ok (some n)

  -- `num`: the fallback is taken as it is.
  abbrev pub number_or : Text → Option Text → Option N → Result (Option N)
  number_or name none fallback = ok fallback
  number_or name (some v) fallback = converted name (to_number v)

  abbrev pub num_ : Environment → Text → Option N → Result (Option N)
  num_ e name fallback = number_or name (env e (name ∷ [])) fallback

  -- The fallback of the RHP port: the host's, by `Number` alone.
  abbrev pub host_port : Option Text → Option N
  host_port none = some (whole 9000)
  host_port (some v) = to_number v

  -- The configuration, once the parts that may fail are there.
  abbrev pub config_of :
      Environment → Text → AddressFamily → Option N → ConnectScript → Option N → Config
  config_of e callsign family rhp_port script web_port =
      let local =
        env e (codes "WHATSPACD_LOCAL_CALLSIGN" ∷ codes "PDN_NODE_CALLSIGN" ∷ [])
        or_else callsign in
      let state_dir =
        env e (codes "WHATSPACD_STATE_DIR" ∷ codes "PDN_APP_STATE" ∷ []) or_else codes "./state" in
      record {
        rhp_host =
            env e (codes "WHATSPACD_RHP_HOST" ∷ codes "PDN_RHP_HOST" ∷ [])
            or_else codes "127.0.0.1";
        rhp_port = rhp_port;
        auth =
            auth_of (env e (codes "WHATSPACD_RHP_USER" ∷ []))
              (env e (codes "WHATSPACD_RHP_PASS" ∷ []));
        family = family;
        local_callsign = local;
        callsign = callsign;
        display_name = env e (codes "WHATSPACD_NAME" ∷ []) or_else callsign;
        connect_script = script;
        bearer_port = env e (codes "WHATSPACD_BEARER_PORT" ∷ []);
        db_path = join state_dir (codes "whatspac.db");
        log_level = env e (codes "WHATSPACD_LOG_LEVEL" ∷ []) or_else codes "info";
        web_host = env e (codes "WHATSPACD_WEB_HOST" ∷ []) or_else codes "127.0.0.1";
        web_port = web_port;
        socket_path =
            env e (codes "WHATSPACD_RF_SOCKET" ∷ []) or_else join state_dir (codes "whatspac.sock");
      }

  unfoldable pub load_config : Environment → Result Config
  load_config e = do
    callsign ← or_throw (env e (codes "WHATSPACD_CALLSIGN" ∷ [])) no_callsign
    family ← family_of (env e (codes "WHATSPACD_FAMILY" ∷ []) or_else codes "ax25")
    rhp_port ← num_ e (codes "WHATSPACD_RHP_PORT") (host_port (env e (codes "PDN_RHP_PORT" ∷ [])))
    script ← load_connect_script e
    web_port ← num_ e (codes "WHATSPACD_WEB_PORT") (some (whole 18900))
    ok (config_of e callsign family rhp_port script web_port)
