-- ===== src/Examples/Pollers.antt =====
-- The pollers.
use mathlib.Core.List.{Perm}
use zzte.Cache.{get, get_onu_names, olt_prefix}
use zzte.Poller.Names.{name_entries, read_names}
use zzte.Poller.Optical.{read_statuses, to_item, with_names}
use zzte.Poller.Walks.{read_number}
use zzte.Service.Onus.Names.{named, names_map, names_map_from, put_name}
use zzte.Snmp.Oids
use zzte.Snmp.Parsers.{parse_onu_status, parse_status_to_int}
use zzte.Snmp.Values.{get_pdu_int, pdu_to_string}
use zzte.Strings.{split, trim_prefix, trim_space}
use zzte.Strings.Decimal.{atoi, itoa, put_digits}
use zzte.Domain.{OnuListItem, OnuNameEntry, ok}
use zzte.Cache.{RedisCache, key_onu_names}
use zzte.Snmp.Values.{SnmpPdu, octet_string, integer, bytes, int}
use zzte.Snmp.Oids.{build_walk_oid, oid_onu_status, oid_onu_name}
use zzte.Snmp.Client.{Agent, bulk_walk}
use zzte.Service.Onus.Walks.{no_power}
use zzte.Service.Onus.Names.{needs_names}
use zzte.Service.Onus.Items.{item_number}
use zzte.Service.Onus.Listing.{OnuService, ListCodec, get_onu_list}
use zzte.Service.Onus.Pons.{PonPort}
use zzte.Poller.Slots.{Polling, Step, Run, start, places, here, next, take_slot, polling_lem}
use zzte.Poller.Names.{walk_names}
use zzte.Poller.Names.Described
use zzte.Poller.Names.Described.{entry_number, entry_at, walk_names-described}
use zzte.Poller.Optical.{TempOnu, walk_onus, sorted_items, named_items, poll_pon}
use zzte.Poller.Optical.Described.{measured, item_of, sorted_items-measured}
use zzte.Poller.Optical.Served.{get_onu_list-polled}
use zzte.Examples.Olts.{silent}
use zzte.Examples.System.{manager, quiet}
use zzte.Prelude.{
  IsAscending, List, Map, Option, Text, [], ap, arith, codes, false, find_by, if◌then◌else◌, insert,
  insert_by, int_eq, lookup, nat_eq, none, pos, refl, some, sort_by, sym, text_eq, ℤ, ◌*◌, ◌++◌,
  ◌=ᵗ◌, ◌∙◌, ◌∷◌, ◌≡◌, ◌≤◌, ◌⊎◌,
}

abbrev one_taken : Polling
one_taken = record { waiting = []; running = 0 ∷ []; finished = [] }

one_step : Run (start 1) one_taken 1
unfolding start
one_step = next here (take_slot [] [] [] [] 0 (omega arith))

polling_example :
    (1 ≤ 2)
    × Perm (0 ∷ []) (places 1)
    × (((t : Polling) × Step one_taken t) ⊎ (Perm [] (places 1) × (1 ≡ 2 * 1)))
    × (1 ≤ 2 * 1)
polling_example = polling_lem 1 one_taken 1 one_step

-- A port with one ONU, number 7, that has a name.
abbrev status_oid : Text
status_oid = build_walk_oid oid_onu_status (pos 9)

abbrev name_oid : Text
name_oid = build_walk_oid oid_onu_name (pos 9)

abbrev statuses : List SnmpPdu
statuses = (record { name = status_oid ++ codes ".7"; asn1 = integer; value = int (pos 3) }) ∷ []

abbrev names : List SnmpPdu
names =
    (record { name = name_oid ++ codes ".7"; asn1 = octet_string; value = bytes (codes " ann ") })
    ∷ []

abbrev answers : Text → Option (List SnmpPdu)
answers oid =
    if oid =ᵗ status_oid then some statuses else if oid =ᵗ name_oid then some names else none

abbrev agent : Agent
agent = record silent { bulk_walk = answers }

abbrev onus : Map ℤ TempOnu
onus = (pos 7, (record { status = codes "Online"; status_code = pos 3; rx_power = no_power })) ∷ []

statuses-walked : bulk_walk agent status_oid ≡ ok statuses
unfolding bulk_walk build_walk_oid Oids.itoa put_digits ◌=ᵗ◌
statuses-walked = refl

onus-walked : walk_onus agent none (pos 9) ≡ ok onus
unfolding walk_onus build_walk_oid bulk_walk insert read_statuses read_number Oids.itoa
    parse_onu_status parse_status_to_int get_pdu_int atoi put_digits split trim_prefix ◌=ᵗ◌
onus-walked = refl

sorted_items-measured_example :
    IsAscending item_number (sorted_items (codes "c320") (pos 1) (pos 2) onus)
    × ((n : ℤ)
        → find_by item_number n (sorted_items (codes "c320") (pos 1) (pos 2) onus)
          ≡ item_of (codes "c320") (pos 1) (pos 2) n (measured agent none (pos 9) statuses n))
sorted_items-measured_example =
    sorted_items-measured (codes "c320") (pos 1) (pos 2) agent none (pos 9) statuses onus
      statuses-walked onus-walked

abbrev ann_entry : OnuNameEntry
ann_entry = record { onu_id = pos 7; name = codes "ann"; serial_number = [] }

names-walked : bulk_walk agent name_oid ≡ ok names
unfolding bulk_walk build_walk_oid Oids.itoa put_digits ◌=ᵗ◌
names-walked = refl

names-listed : walk_names agent (pos 9) ≡ some (ok (ann_entry ∷ []))
unfolding walk_names build_walk_oid bulk_walk insert insert_by sort_by name_entries read_names
    read_number Oids.itoa pdu_to_string atoi put_digits split trim_prefix trim_space ◌=ᵗ◌
names-listed = refl

walk_names-described_example :
    IsAscending entry_number (ann_entry ∷ [])
    × ((n : ℤ)
        → find_by entry_number n (ann_entry ∷ [])
          ≡ entry_at n (Described.described agent (pos 9) names n))
walk_names-described_example =
    walk_names-described agent (pos 9) names (ann_entry ∷ []) names-walked names-listed

-- A cache that holds the names, and JSON of one list.
abbrev named_cache : RedisCache
named_cache =
    (
      key_onu_names (codes "c320") (pos 1) (pos 2),
      (record { value = codes "[ann]"; deadline = none }),
    )
    ∷ []

abbrev port : PonPort
port = record { info = record { board = pos 1; pon = pos 2; description = [] }; if_index = pos 9 }

abbrev ann : OnuListItem
ann = record {
  olt_id = codes "c320";
  board = pos 1;
  pon = pos 2;
  onu_id = pos 7;
  name = codes "ann";
  serial_number = [];
  status = codes "Online";
  status_code = pos 3;
  rx_power = no_power;
}

abbrev codec : ListCodec
codec = record {
  encode = λ items. some (codes "[7]");
  decode = λ data'. some (ann ∷ []);
  encode_names = λ names'. none;
  decode_names = λ data'. some (ann_entry ∷ []);
}

ann-named :
    named_items codec 4
      (codes "c320")
      (pos 1)
      (pos 2)
      (sorted_items (codes "c320") (pos 1) (pos 2) onus)
      (some named_cache)
    ≡ ann ∷ []
unfolding named_items sorted_items insert insert_by key_onu_names lookup sort_by get get_onu_names
    olt_prefix to_item with_names named names_map names_map_from put_name itoa put_digits ◌=ᵗ◌
ann-named = refl

all_named : needs_names (ann ∷ []) ≡ false
unfolding needs_names
all_named = refl

abbrev polled : OnuService
polled = record {
  manager = manager;
  cache = (poll_pon codec 4 (codes "c320") agent none (pos 100) port (some named_cache)).0;
}

get_onu_list-polled_example :
    let items =
      named_items codec 4
        (codes "c320")
        (pos 1)
        (pos 2)
        (sorted_items (codes "c320") (pos 1) (pos 2) onus)
        (some named_cache) in
    get_onu_list codec quiet
      (λ id. false)
      (record { asked = 50; started = 51; finished = 52 })
      (codes "c320")
      (pos 1)
      (pos 2)
      false
      polled
    ≡ (polled, some (ok items))
get_onu_list-polled_example =
    get_onu_list-polled codec 4 agent none (pos 100) port quiet (λ id. false)
      (record { asked = 50; started = 51; finished = 52 }) (codes "c320") (codes "[7]") polled
      named_cache onus onus-walked refl (ap needs_names ann-named ∙ all_named) refl
      (ap some (sym ann-named)) refl (omega arith) refl
