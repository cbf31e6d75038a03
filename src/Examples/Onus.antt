-- ===== src/Examples/Onus.antt =====
-- Lists of ONUs.
use zzte.Domain.{to_list_item}
use zzte.Handler.OltRequests.{build_olt_instance}
use zzte.Service.Manager.{register_olt}
use zzte.Service.Onus.Listing.{cached_answer, fetch_onu_list, finish_list, list_items}
use zzte.Service.Onus.Walks.{
  add_details, add_serials, add_walk, blank_onu, collect_onus, read_walk, set_name, set_status,
  with_onu,
}
use zzte.Snmp.IfIndex.{calculate_if_index}
use zzte.Snmp.Oids.{build_walk_oid, extract_onu_id, itoa}
use zzte.Snmp.Parsers.{parse_onu_status, parse_status_to_int}
use zzte.Snmp.Values.{get_pdu_int, pdu_to_string}
use zzte.Strings.{split, strip_prefix, trim_space}
use zzte.Strings.Decimal.{atoi, put_digits}
use zzte.Domain.{OnuListItem, ok}
use zzte.Snmp.Values.{SnmpPdu, octet_string, integer, bytes, int}
use zzte.Snmp.Oids.{oid_onu_status, oid_onu_name}
use zzte.Snmp.Client.{Client, bulk_walk}
use zzte.Service.Manager.{Devices, get_client, get_adapter}
use zzte.Service.Onus.Walks.{walk_oid, no_power}
use zzte.Service.Onus.Names.{needs_names}
use zzte.Service.Onus.Listing.{OnuService, ListCodec, Clock, or_absent, get_onu_list}
use zzte.Service.Onus.Described.{described}
use zzte.Service.Onus.Items.{item_number, as_item}
use zzte.Service.Onus.Fetched.{get_onu_list-described}
use zzte.Service.Onus.Served.{get_onu_list-cached}
use zzte.Examples.Olts.{silent}
use zzte.Examples.System.{manager, quiet}
use zzte.Prelude.{
  IsAscending, List, Option, Text, [], arith, codes, false, find_by, if◌then◌else◌, insert,
  insert_by, int_eq, lookup, nat_eq, none, pos, refl, some, sort_by, text_eq, true, ℤ, ◌++◌, ◌=ᵗ◌,
  ◌∷◌, ◌≡◌,
}

abbrev status_oid : Text
status_oid = walk_oid (codes "c320") (pos 1) (pos 2) oid_onu_status

abbrev name_oid : Text
name_oid = walk_oid (codes "c320") (pos 1) (pos 2) oid_onu_name

-- A device with one ONU, number 7, that has a name.
abbrev answers : Text → Option (List SnmpPdu)
answers oid =
    if oid =ᵗ status_oid
    then some
        ((record { name = status_oid ++ codes ".7"; asn1 = integer; value = int (pos 3) }) ∷ [])
    else if oid =ᵗ name_oid
    then some (
        (record { name = name_oid ++ codes ".7"; asn1 = octet_string; value = bytes (codes "ann") })
        ∷ [])
    else none

abbrev pub one_onu : Devices
one_onu client = record silent { bulk_walk = answers }

abbrev pub clock : Clock
clock = record { asked = 1; started = 2; finished = 3 }

abbrev pub ann : OnuListItem
ann = record {
  olt_id = codes "c320";
  board = pos 1;
  pon = pos 2;
  onu_id = pos 7;
  name = codes "ann";
  serial_number = [];
  status = codes "Online";
  status_code = pos 3;
  rx_power = no_power;
}

-- JSON of one list.
abbrev pub codec : ListCodec
codec = record {
  encode = λ items. some (codes "[7]");
  decode = λ data'. some (ann ∷ []);
  encode_names = λ names. none;
  decode_names = λ data'. none;
}

abbrev pub service : OnuService
service = record { manager = manager; cache = some [] }

forced :
    (get_onu_list codec one_onu (λ id. true) clock (codes "c320") (pos 1) (pos 2) true service).1
    ≡ some (ok (ann ∷ []))
unfolding get_onu_list insert lookup build_olt_instance get_client register_olt cached_answer
    fetch_onu_list finish_list collect_onus read_walk bulk_walk calculate_if_index build_walk_oid
    extract_onu_id itoa put_digits ◌=ᵗ◌ insert_by sort_by to_list_item list_items add_details
    add_serials add_walk blank_onu set_name set_status with_onu parse_onu_status parse_status_to_int
    get_pdu_int pdu_to_string atoi split strip_prefix trim_space
forced = refl

named : needs_names (ann ∷ []) ≡ false
unfolding needs_names
named = refl

get_onu_list-cached_example :
    let t =
      (get_onu_list codec one_onu
        (λ id. true)
        clock
        (codes "c320")
        (pos 1)
        (pos 2)
        true
        service).0 in
    get_onu_list codec quiet
      (λ id. false)
      (record { asked = 50; started = 51; finished = 52 })
      (codes "c320")
      (pos 1)
      (pos 2)
      false
      t
    ≡ (t, some (ok (ann ∷ [])))
get_onu_list-cached_example =
    get_onu_list-cached codec one_onu quiet (λ id. true) (λ id. false) clock
      (record { asked = 50; started = 51; finished = 52 }) (codes "c320") (codes "[7]") (pos 1)
      (pos 2) service [] (ann ∷ []) refl forced refl named refl refl (omega arith) (omega arith)

get_onu_list-described_example :
    (client : Client) × (get_client (codes "c320") manager ≡ ok client)
    × ((statuses : List SnmpPdu) × (bulk_walk (one_onu client) status_oid ≡ ok statuses)
        × IsAscending item_number (ann ∷ [])
        × ((n : ℤ)
            → find_by item_number n (ann ∷ [])
              ≡ as_item (
                  described
                    (codes "c320")
                    (pos 1)
                    (pos 2)
                    (one_onu client)
                    (or_absent (get_adapter (codes "c320") manager))
                    statuses
                    n)))
get_onu_list-described_example =
    get_onu_list-described codec one_onu (λ id. true) clock (codes "c320") (pos 1) (pos 2) service
      (ann ∷ []) forced
