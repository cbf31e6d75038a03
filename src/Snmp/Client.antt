-- ===== src/Snmp/Client.antt =====
-- internal/snmp/client.go. The answers of gosnmp are a parameter: the agent on the other side may
-- answer anything, and may fail.
pub mod Defaults
use zzte.Strings.{is_empty}
use zzte.Domain.{SnmpConfig, Result, ok, err, message, ◌>>=◌}
use zzte.Snmp.Values.{SnmpPdu, pdu_to_string, pdu_to_int}
use zzte.Snmp.IfIndex.{pattern_of}
use zzte.Prelude.{
  Bool, List, Option, Text, [], arith, codes, eqb_ℤ, if◌then◌else◌, int_eq, nat_eq, none, pos, some,
  text_eq, ℕ, ℤ, ◌%◌, ◌^◌, ◌↔◌, ◌∷◌, ◌≡◌,
}

-- What gosnmp returns for each request, at the time of the call; `none` is an error.
pub record Agent : Type 0 where
  pub get : List Text → Option (List SnmpPdu)
  pub walk : Text → Option (List SnmpPdu)
  pub bulk_walk : Text → Option (List SnmpPdu)
  pub connects : Bool

-- The settings of a `gosnmp.GoSNMP` that the client makes; the timeout is in seconds.
pub record GoSnmp : Type 0 where
  pub target : Text
  pub port : ℕ
  pub community : Text
  pub timeout : ℤ
  pub retries : ℤ
  pub max_repetitions : ℕ

pub record Client : Type 0 where
  pub config : SnmpConfig
  pub snmp : GoSnmp

abbrev or_int : ℤ → ℤ → ℤ
or_int d i = if eqb_ℤ i (pos 0) then d else i

abbrev or_text : Text → Text → Text
or_text d s = if is_empty s then d else s

unfoldable pub client_defaults : SnmpConfig → SnmpConfig
client_defaults config = record config {
  port = or_int (pos 161) config.port;
  timeout = or_int (pos 15) config.timeout;
  retries = or_int (pos 1) config.retries;
  community = or_text (codes "public") config.community;
}

-- `NewClient`, which never fails; the port is cut to 16 bits.
unfoldable pub new_client : SnmpConfig → Client
unfolding client_defaults
new_client config =
    let c = client_defaults config in
    record {
      config = c;
      snmp = record {
        target = c.host;
        port = pattern_of c.port % 2 ^ 16;
        community = c.community;
        timeout = c.timeout;
        retries = c.retries;
        max_repetitions = 3;
      };
    }

-- `Clone`
unfoldable pub clone : Client → Client
unfolding new_client
clone c = new_client c.config

abbrev first_variable : List SnmpPdu → Result SnmpPdu
first_variable [] = err (message "no result for OID")
first_variable (p ∷ ps) = ok p

module _ (agent : Agent) where
  -- `Get`
  unfoldable pub get : Text → Result SnmpPdu
  get oid = elim (agent.get (oid ∷ [])) [
    | none ↦ err (message "SNMP GET failed")
    | some variables ↦ first_variable variables
  ]

  -- `GetMultiple`
  unfoldable pub get_multiple : List Text → Result (List SnmpPdu)
  get_multiple oids = elim (agent.get oids) [
    | none ↦ err (message "SNMP GET failed")
    | some variables ↦ ok variables
  ]

  -- `Walk`, and `walkUnlocked`
  unfoldable pub walk : Text → Result (List SnmpPdu)
  walk base_oid = elim (agent.walk base_oid) [
    | none ↦ err (message "SNMP WALK failed")
    | some results ↦ ok results
  ]

  -- `BulkWalk`: a bulk walk that fails is repeated as a plain walk.
  unfoldable pub bulk_walk : Text → Result (List SnmpPdu)
  unfolding walk
  bulk_walk base_oid = elim (agent.bulk_walk base_oid) [
    | none ↦ walk base_oid
    | some results ↦ ok results
  ]

  -- `GetString`
  unfoldable pub get_string : Text → Result Text
  unfolding get
  get_string oid = do pdu ← get oid; ok (pdu_to_string pdu)

  -- `GetInt`
  unfoldable pub get_int : Text → Result ℤ
  unfolding get
  get_int oid = do pdu ← get oid; ok (pdu_to_int pdu)

  -- A bulk walk fails only if the plain walk fails too, and else has the answer of the first of
  -- the two that did not fail.
  pub bulk_walk-eq-err_iff :
      (oid : Text)
      → (bulk_walk oid ≡ err (message "SNMP WALK failed"))
        ↔ ((agent.bulk_walk oid ≡ none) × (agent.walk oid ≡ none))
  unfolding bulk_walk
  bulk_walk-eq-err_iff oid = ground arith
