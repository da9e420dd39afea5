-- ===== src/Config/Loads.antt =====
-- The defaults of src/config.ts.
use pdn_whatspac_client.Base.{Option, none, some, [], ◌∷◌, ℕ, Text, codes, text_eq, if◌then◌else◌}
use pdn_whatspac_client.Rhp.Requests.{ax25}
use pdn_whatspac_client.Config.{Environment, Config}

-- Only the callsign and the host's RHP port are set.
abbrev pub only : Text → Option Text → Environment
only callsign port name =
    if text_eq name (codes "WHATSPACD_CALLSIGN")
    then some callsign
    else if text_eq name (codes "PDN_RHP_PORT")
    then port
    else none

module _ (N : Type 0) (to_number : Text → Option N) (whole : ℕ → N)
    (join : Text → Text → Text) where
  -- The configuration with each default written out.
  abbrev pub default_config : Text → Option N → Config N to_number whole join
  default_config callsign rhp_port = record {
    rhp_host = codes "127.0.0.1";
    rhp_port = rhp_port;
    auth = none;
    family = ax25;
    local_callsign = callsign;
    callsign = callsign;
    display_name = callsign;
    connect_script =
        record { cmd = codes "GB7NBH"; val = codes "GB7NBH" }
        ∷ record { cmd = codes "C MB7NPW-9"; val = codes "*** Connected" }
        ∷ [];
    bearer_port = none;
    db_path = join (codes "./state") (codes "whatspac.db");
    log_level = codes "info";
    web_host = codes "127.0.0.1";
    web_port = some (whole 18900);
    socket_path = join (codes "./state") (codes "whatspac.sock");
  }
