-- ===== src/Examples/Index.antt =====
-- The search index, and requests for lists.
use mathlib.Core.List.{Perm, reverse}
use mathlib.Core.List.Perm
use mathlib.Core.List.Permᴰ
use zzte.Service.Indexer.{add_names, add_serials, new_temp_onu, put_status, read_place}
use zzte.Snmp.IfIndex.{parse_if_index}
use zzte.Snmp.Parsers.{parse_onu_status}
use zzte.Snmp.Values.{get_pdu_int}
use zzte.Strings.{split, trim_prefix}
use zzte.Strings.Decimal.{atoi_value}
use zzte.Domain.{SearchItem, OltInstance, ok}
use zzte.Snmp.Values.{SnmpPdu, integer, int}
use zzte.Snmp.Oids.{oid_onu_status}
use zzte.Snmp.Client.{Agent, walk}
use zzte.Service.Indexer.{TempOnu, read_statuses, to_search_item, walk_items, collect_items}
use zzte.Service.Indexer.SameIndex.{IsSameIndex}
use zzte.Service.Indexer.Order.{collect_items-perm}
use zzte.Service.Indexer.Items.{outline, walk_items-outline}
use zzte.Handler.Onus.{get_onu_list}
use zzte.Handler.Onus.Answers.{IsAnswer, get_onu_list-IsAnswer}
use zzte.Examples.Olts.{silent, olt}
use zzte.Examples.System.{manager}
use zzte.Examples.Onus.{one_onu, codec, clock, service}
use zzte.Prelude.{
  List, Map, Text, [], codes, if◌then◌else◌, insert, int_eq, lookup, map, nat_eq, none, pos, refl,
  some, text_eq, true, ◌++◌, ◌=ᵗ◌, ◌∷◌, ◌≡◌,
}

-- A device with ONU 7 at port 2 of slot 1.
abbrev statuses : List SnmpPdu
statuses =
    (record { name = oid_onu_status ++ codes ".268501504.7"; asn1 = integer; value = int (pos 3) })
    ∷ []

abbrev agent : Agent
agent = record silent {
  walk = λ oid. if oid =ᵗ oid_onu_status then some statuses else none;
  connects = true;
}

abbrev found : List SearchItem
found =
    (record {
      olt_id = codes "c320";
      board = pos 1;
      pon = pos 2;
      onu_id = pos 7;
      name = [];
      serial_number = [];
      status = codes "Online";
    })
    ∷ []

-- a range over a map from its last entry to its first
abbrev backwards : Map Text TempOnu → Map Text TempOnu
backwards onus = reverse onus

backwards-perm : (onus : Map Text TempOnu) → Perm (backwards onus) onus
backwards-perm onus = ∣ Permᴰ.reverse onus ∣₁

walked : walk_items backwards agent (codes "c320") ≡ some (ok found)
unfolding walk_items insert lookup read_statuses to_search_item walk add_names add_serials
    new_temp_onu put_status read_place parse_if_index parse_onu_status get_pdu_int atoi_value split
    trim_prefix ◌=ᵗ◌
walked = refl

walk_items-outline_example :
    (pdus : List SnmpPdu) × (walk agent oid_onu_status ≡ ok pdus)
    × Perm
        (map outline found)
        (map (λ entry. outline (to_search_item (codes "c320") entry.1)) (read_statuses pdus []))
walk_items-outline_example =
    walk_items-outline backwards agent (codes "c320") found backwards-perm walked

abbrev other : OltInstance
other = record olt { id = codes "c321" }

-- The second OLT is not registered, so its walk ends with an error.
collect_items-perm_example :
    IsSameIndex
      (collect_items (λ client. agent) (λ id. true) (λ id. backwards) (olt ∷ other ∷ []) manager).1
      (collect_items (λ client. agent) (λ id. true) (λ id onus. onus) (other ∷ olt ∷ []) manager).1
collect_items-perm_example =
    collect_items-perm (λ client. agent) (λ id. true) (λ id. backwards) (λ id onus. onus) manager
      (olt ∷ other ∷ []) (other ∷ olt ∷ []) (λ id onus. backwards-perm onus)
      (λ id onus. Perm.refl onus) (Perm.swap other olt [])

get_onu_list-IsAnswer_example : IsAnswer service (
    get_onu_list one_onu
      (λ id. true)
      clock
      codec
      (codes "c320")
      (codes "1")
      (codes "2")
      true
      service)
get_onu_list-IsAnswer_example =
    get_onu_list-IsAnswer codec one_onu (λ id. true) clock (codes "c320") (codes "1") (codes "2")
      true service
