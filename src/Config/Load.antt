-- ===== src/Config/Load.antt =====
-- internal/config/config.go and internal/config/olt_runtime.go: what loading a configuration does
-- with what viper has read, and the OLT that an entry stands for.
pub mod Accounts
use zzte.Strings.{is_empty, to_lower}
use zzte.Domain.{SnmpConfig, TelnetConfig, OltInstance, Result, ok, err, ◌>>=◌}
use zzte.Config.Password.{UserAccount, Bcrypt, hash_password, normalize_users}
use zzte.Config.Env.{read_olt_env}
use zzte.Prelude.{
  Map, Option, Text, [], arith, codes, eqb_ℤ, if◌then◌else◌, int_eq, nat_eq, none, pos, some,
  text_eq, ℤ, ◌∷◌,
}

-- `config.OLTConfig`
pub record OltEntry : Type 0 where
  pub name : Text
  pub host : Text
  pub port : ℤ
  pub community : Text
  pub timeout : ℤ
  pub retries : ℤ
  pub poll_interval : ℤ
  pub telnet : TelnetConfig
  pub vlan_profiles : Map Text Text

abbrev pub or_int : ℤ → ℤ → ℤ
or_int default i = if eqb_ℤ i (pos 0) then default else i

abbrev pub or_text : Text → Text → Text
or_text default s = if is_empty s then default else s

-- one round of the loop of `Load` over the OLTs
unfoldable pub olt_defaults : OltEntry → OltEntry
olt_defaults olt = record olt {
  port = or_int (pos 161) olt.port;
  community = or_text (codes "public") olt.community;
  timeout = or_int (pos 5) olt.timeout;
  retries = or_int (pos 2) olt.retries;
  telnet = record olt.telnet { port = or_int (pos 23) olt.telnet.port };
}

module _ (getenv : Text → Text) where
  -- `ResolvedSNMPConfig`
  unfoldable pub resolved_snmp_config : OltEntry → Text → SnmpConfig
  resolved_snmp_config c id = record {
    host = c.host;
    port = c.port;
    community = or_text c.community (read_olt_env getenv id (codes "SNMP_COMMUNITY"));
    timeout = c.timeout;
    retries = c.retries;
  }

  -- `ResolvedTelnetConfig`
  unfoldable pub resolved_telnet_config : OltEntry → Text → TelnetConfig
  resolved_telnet_config c id = record {
    user = or_text c.telnet.user (read_olt_env getenv id (codes "TELNET_USER"));
    password = or_text c.telnet.password (read_olt_env getenv id (codes "TELNET_PASSWORD"));
    port = c.telnet.port;
  }

  -- `ToOLTInstance`
  unfoldable pub to_olt_instance : OltEntry → Text → OltInstance
  unfolding resolved_snmp_config resolved_telnet_config
  to_olt_instance c id =
      let snmp = resolved_snmp_config c id in
      let telnet = resolved_telnet_config c id in
      record {
        id = id;
        name = c.name;
        config = record {
          id = id;
          name = c.name;
          snmp = snmp;
          telnet = telnet;
          vlan_profiles = c.vlan_profiles;
          poll_interval = c.poll_interval;
        };
        snmp = snmp;
        telnet = telnet;
      }

-- What viper holds under `users` for one name: a password, a map with two texts (`none` where a key
-- is missing or holds no text), or something else.
pub data RawUser : Type 0 where
  plain : Text → RawUser
  fields : Option Text → Option Text → RawUser
  unknown : RawUser

abbrev text_or_empty : Option Text → Text
text_or_empty none = []
text_or_empty (some s) = s

abbrev pub superadmin : Text
superadmin = codes "superadmin"

-- the account of one entry, if it is kept
abbrev pub parse_user : RawUser → Option UserAccount
parse_user (plain password) = some (record { password = password; role = superadmin })
parse_user (fields password role) =
    if is_empty (text_or_empty password)
    then none
    else some (record {
      password = text_or_empty password;
      role = to_lower (or_text superadmin (text_or_empty role));
    })
parse_user unknown = none

abbrev pub add_user : Text → Option UserAccount → Map Text UserAccount → Map Text UserAccount
add_user username none users = users
add_user username (some user) users = (username, user) ∷ users

-- `parseUsers`, for the map that viper makes of YAML
unfoldable pub parse_users : Map Text RawUser → Map Text UserAccount
parse_users [] = []
parse_users ((username, raw) ∷ users) = add_user username (parse_user raw) (parse_users users)

module _ (bcrypt : Bcrypt) where
  -- the accounts that `Load` starts from: those of the file, or the default one
  unfoldable pub initial_users : Map Text UserAccount → Result (Map Text UserAccount)
  initial_users [] = do
    password ← hash_password bcrypt (codes "admin")
    ok ((codes "admin", record { password = password; role = superadmin }) ∷ [])
  initial_users (user ∷ users) = ok (user ∷ users)

  -- the accounts that `Load` leaves: `decoded` is what `Unmarshal` made of the file, which stands
  -- where `parseUsers` finds no account
  unfoldable pub load_users :
      Map Text UserAccount → Map Text RawUser → Result (Map Text UserAccount)
  unfolding initial_users
  load_users decoded raw = do
    users ← initial_users (if is_empty (parse_users raw) then decoded else parse_users raw)
    normalize_users bcrypt users
