-- ===== src/Handler/Olts/Persisted.antt =====
-- What is written to the configuration file of an OLT, and the OLT that it stands for when the file
-- is loaded again.
use zzte.Strings.{to_lower}
use zzte.Domain.{OltInstance, OltCreateRequest}
use zzte.Config.Env.{read_olt_env, read_olt_env-to_lower}
use zzte.Config.Load.{OltEntry, olt_defaults, to_olt_instance}
use zzte.Handler.OltRequests.{
  apply_olt_request_defaults, build_olt_instance, sanitize_persisted_olt_config,
}
use zzte.Prelude.{Map, Text, [], any, arith, codes, false, int_eq, nat_eq, refl, text_eq, ◌==◌, ◌≡◌}

-- What reading the configuration file gives back for an entry that was written to it: the identifier
-- in lower case, since viper's keys have no case, and the name and the settings. No other entry has
-- an identifier that differs in letter case alone. The profiles and the poll interval are left open.
pub record IsReread (id : Text) (entry : OltEntry) (back : Text × OltEntry) : Type 0 where
  pub key : back.0 ≡ to_lower id
  pub name : back.1.name ≡ entry.name
  pub host : back.1.host ≡ entry.host
  pub port : back.1.port ≡ entry.port
  pub community : back.1.community ≡ entry.community
  pub timeout : back.1.timeout ≡ entry.timeout
  pub retries : back.1.retries ≡ entry.retries
  pub telnet : back.1.telnet ≡ entry.telnet

-- What is relied on of viper, whose keys are paths with a dot between their parts.
abbrev pub ViperLaw : (Text → OltEntry → Text × OltEntry) → Type 0
ViperLaw reread =
    (id : Text) (entry : OltEntry)
    → any (λ c. c == b'.') id ≡ false
    → IsReread id entry (reread id entry)

-- an OLT under the identifier, and with the profiles and the poll interval, that were read
abbrev pub restored : Text × OltEntry → OltInstance → OltInstance
restored back olt = record olt {
  id = back.0;
  config = record olt.config {
    id = back.0;
    vlan_profiles = back.1.vlan_profiles;
    poll_interval = back.1.poll_interval;
  };
}

module _ (getenv : Text → Text) (r : OltCreateRequest) where
  to_olt_instance-IsReread :
      (profiles : Map Text Text) (back : Text × OltEntry)
      → IsReread r.id (sanitize_persisted_olt_config (apply_olt_request_defaults r) profiles) back
      → read_olt_env getenv r.id (codes "SNMP_COMMUNITY")
        ≡ (apply_olt_request_defaults r).snmp.community
      → read_olt_env getenv r.id (codes "TELNET_USER") ≡ r.telnet.user
      → read_olt_env getenv r.id (codes "TELNET_PASSWORD") ≡ r.telnet.password
      → to_olt_instance getenv (olt_defaults back.1) back.0
        ≡ restored back (build_olt_instance (apply_olt_request_defaults r))
  unfolding to_olt_instance olt_defaults build_olt_instance sanitize_persisted_olt_config
      apply_olt_request_defaults
  to_olt_instance-IsReread profiles back k h u p =
      rw
        (
          k.key,
          read_olt_env-to_lower getenv r.id (codes "SNMP_COMMUNITY"),
          read_olt_env-to_lower getenv r.id (codes "TELNET_USER"),
          read_olt_env-to_lower getenv r.id (codes "TELNET_PASSWORD"),
          h,
          u,
          p,
          k.name,
          k.host,
          k.port,
          k.community,
          k.timeout,
          k.retries,
          k.telnet,
        )
        (ground arith)

-- The entry that is written for an OLT, whatever profiles it has, holds no secret. Read back by
-- viper, as documented, from an identifier without a dot, and loaded with the secrets in the
-- environment, it stands for the OLT that the request registered, but under the identifier in
-- lower case, and with the profiles and the poll interval that the file gave.
pub to_olt_instance-persisted :
    (reread : Text → OltEntry → Text × OltEntry) (getenv : Text → Text) (r : OltCreateRequest)
    (profiles : Map Text Text)
    → ViperLaw reread
    → any (λ c. c == b'.') r.id ≡ false
    → read_olt_env getenv r.id (codes "SNMP_COMMUNITY")
      ≡ (apply_olt_request_defaults r).snmp.community
    → read_olt_env getenv r.id (codes "TELNET_USER") ≡ r.telnet.user
    → read_olt_env getenv r.id (codes "TELNET_PASSWORD") ≡ r.telnet.password
    → let req = apply_olt_request_defaults r in
      let entry = sanitize_persisted_olt_config req profiles in
      let back = reread r.id entry in
      (entry.community ≡ [])
      × (entry.telnet.user ≡ [])
      × (entry.telnet.password ≡ [])
      × (back.0 ≡ to_lower r.id)
      × (to_olt_instance getenv (olt_defaults back.1) back.0
          ≡ restored back (build_olt_instance req))
unfolding sanitize_persisted_olt_config
to_olt_instance-persisted reread getenv r profiles viper dots h u p =
    let entry = sanitize_persisted_olt_config (apply_olt_request_defaults r) profiles in
    let back = viper r.id entry dots in
    (
      refl,
      refl,
      refl,
      back.key,
      to_olt_instance-IsReread getenv r profiles (reread r.id entry) back h u p,
    )
