-- ===== src/Poller/Walks.antt =====
-- What both pollers do with the variables of a walk: `discoverPONs`, and the number of the ONU.
use zzte.Strings.{split, trim_prefix, is_empty}
use zzte.Strings.Decimal.{atoi}
use zzte.Domain.{Result, ok, err, message}
use zzte.Snmp.Oids.{oid_pon_description}
use zzte.Snmp.Values.{SnmpPdu}
use zzte.Snmp.Client.{Agent, bulk_walk}
use zzte.Service.Onus.Pons.{PonPort, read_ports}
use zzte.Prelude.{
  List, Option, Text, [], if◌then◌else◌, int_eq, nat_eq, none, some, text_eq, ℤ, ◌++◌, ◌∷◌,
}

-- `discoverPONs`; that of the names poller leaves out the descriptions, which it never reads.
unfoldable pub discover_pons : Agent → Result (List PonPort)
discover_pons agent = elim (bulk_walk agent oid_pon_description) [
  | err _ ↦ err (message "gagal walk PON descriptions")
  | ok results ↦ ok (read_ports results)
]

-- the number of a first part, with the parts that follow it
abbrev first_number : List Text → Option (ℤ × List Text)
first_number [] = none
first_number (p ∷ ps) =
    if is_empty p then none else elim (atoi p) [ none ↦ none | some n ↦ some (n, ps) ]

-- What follows the identifier of the walk, or the whole name where it does not begin so.
unfoldable pub read_number : Text → SnmpPdu → Option (ℤ × List Text)
read_number base_oid pdu = first_number (split b'.' (trim_prefix pdu.name (base_oid ++ b'.' ∷ [])))
