-- ===== src/Service/Indexer.antt =====
-- internal/service/indexer_service.go: the walks of one OLT, and the index of all of them. The
-- goroutines of a sync append what they read in the order in which they end; that order is an
-- argument, and so is `ranged`, the order in which the last loop of a walk ranges over the map of
-- what it found. `none` is a panic, which ends the process.
pub mod SameIndex
pub mod Order
pub mod Items
use zzte.Strings.{split, trim_prefix, is_empty}
use zzte.Strings.Decimal.{itoa, atoi_value}
use zzte.Domain.{OltInstance, SearchItem, Result, ok, err, Error, message, deadline_exceeded}
use zzte.Cache.{RedisCache, set_global_index}
use zzte.Snmp.IfIndex.{parse_if_index}
use zzte.Snmp.Oids.{oid_onu_status, oid_onu_name, oid_onu_serial_number}
use zzte.Snmp.Values.{SnmpPdu, pdu_to_string}
use zzte.Snmp.Parsers.{parse_onu_status, parse_serial_number}
use zzte.Snmp.Client.{Agent, walk}
use zzte.Service.Manager.{OltManager, Devices, get_new_client, lock_of}
use zzte.Prelude.{
  Bool, List, Map, Option, Text, [], arith, if◌then◌else◌, insert, int_eq, lookup, map, nat_eq,
  none, not, pos, some, text_eq, ℕ, ℤ, ◌++◌, ◌∷◌,
}

-- `tempONU`
pub record TempOnu : Type 0 where
  pub board : ℤ
  pub pon : ℤ
  pub onu_id : ℤ
  pub status : Text
  pub name : Text
  pub sn : Text

-- the first two parts of what follows the identifier of a table, as numbers; the errors of `Atoi`
-- are not looked at
abbrev two_numbers : List Text → Option (ℤ × ℤ)
two_numbers [] = none
two_numbers (p ∷ []) = none
two_numbers (p ∷ q ∷ ps) = some (atoi_value p, atoi_value q)

unfoldable pub read_place : Text → SnmpPdu → Option (ℤ × ℤ)
read_place base_oid pdu = two_numbers (split b'.' (trim_prefix pdu.name (base_oid ++ b'.' ∷ [])))

-- `fmt.Sprintf("%d.%d", ifIndex, onuID)`
unfoldable pub place_key : ℤ → ℤ → Text
place_key if_index onu_id = itoa if_index ++ b'.' ∷ itoa onu_id

unfoldable pub new_temp_onu : ℤ → ℤ → TempOnu
new_temp_onu if_index onu_id =
    let (_, slot, port) = parse_if_index if_index in
    record { board = pos slot; pon = pos port; onu_id = onu_id; status = []; name = []; sn = [] }

-- `getOrCreate` and the write of the status
unfoldable pub put_status : SnmpPdu → ℤ × ℤ → Map Text TempOnu → Map Text TempOnu
put_status pdu (if_index, onu_id) onus =
    let key = place_key if_index onu_id in
    let onu : TempOnu = elim (lookup key onus) [
      | none ↦ new_temp_onu if_index onu_id
      | some o ↦ o
    ] in
    insert key (record onu { status = parse_onu_status (some pdu) }) onus

-- a write to an ONU that the first walk has found
unfoldable pub update_found : Text → (TempOnu → TempOnu) → Map Text TempOnu → Map Text TempOnu
update_found key set' onus = elim (lookup key onus) [
  | none ↦ onus
  | some o ↦ insert key (set' o) onus
]

unfoldable pub read_statuses : List SnmpPdu → Map Text TempOnu → Map Text TempOnu
read_statuses [] onus = onus
read_statuses (pdu ∷ results) onus =
    read_statuses results (elim (read_place oid_onu_status pdu) [
      | none ↦ onus
      | some place ↦ put_status pdu place onus
    ])

unfoldable pub read_names : List SnmpPdu → Map Text TempOnu → Map Text TempOnu
read_names [] onus = onus
read_names (pdu ∷ results) onus = read_names results (elim (read_place oid_onu_name pdu) [
  | none ↦ onus
  | some place ↦
      update_found (place_key place.0 place.1) (λ o. record o { name = pdu_to_string pdu }) onus
])

-- A serial number is read only for an ONU that was found.
unfoldable pub read_serial : SnmpPdu → Text → Map Text TempOnu → Option (Map Text TempOnu)
read_serial pdu key onus = elim (lookup key onus) [
  | none ↦ some onus
  | some o ↦ elim (parse_serial_number (some pdu)) [
    | none ↦ none
    | some sn ↦ some (insert key (record o { sn = sn }) onus)
  ]
]

unfoldable pub read_serials : List SnmpPdu → Map Text TempOnu → Option (Map Text TempOnu)
read_serials [] onus = some onus
read_serials (pdu ∷ results) onus = elim (read_place oid_onu_serial_number pdu) [
  | none ↦ read_serials results onus
  | some place ↦ elim (read_serial pdu (place_key place.0 place.1) onus) [
    | none ↦ none
    | some onus' ↦ read_serials results onus'
  ]
]

unfoldable pub to_search_item : Text → TempOnu → SearchItem
to_search_item olt_id o = record {
  olt_id = olt_id;
  board = o.board;
  pon = o.pon;
  onu_id = o.onu_id;
  name = o.name;
  serial_number = o.sn;
  status = o.status;
}

-- the walks of the names and of the serial numbers, which may fail
unfoldable pub add_names : Agent → Map Text TempOnu → Map Text TempOnu
add_names agent onus = elim (walk agent oid_onu_name) [
  | err _ ↦ onus
  | ok names ↦ read_names names onus
]

unfoldable pub add_serials : Agent → Map Text TempOnu → Option (Map Text TempOnu)
add_serials agent onus = elim (walk agent oid_onu_serial_number) [
  | err _ ↦ some onus
  | ok serials ↦ read_serials serials onus
]

-- The three walks. Go ranges over a map in any order, a new one each time: `ranged` puts the entries
-- in the order of this time.
unfoldable pub walk_items :
    (Map Text TempOnu → Map Text TempOnu) → Agent → Text → Option (Result (List SearchItem))
walk_items ranged agent olt_id = elim (walk agent oid_onu_status) [
  | err _ ↦ some (err (message "failed walking status"))
  | ok statuses ↦ elim (add_serials agent (add_names agent (read_statuses statuses []))) [
    | none ↦ none
    | some onus ↦ some (ok (map (λ entry. to_search_item olt_id entry.1) (ranged onus)))
  ]
]

-- the end of a goroutine: what it found is appended, an error is only logged
abbrev pub append_found :
    Option (Result (List SearchItem))
    → OltManager
    → OltManager × Option (List SearchItem)
    → OltManager × Option (List SearchItem)
append_found none m later = (m, none)
append_found (some (err _)) m later = later
append_found (some (ok found)) m later =
    (later.0, elim later.1 [ none ↦ none | some more ↦ some (found ++ more) ])

-- `ranged` is the order of the walk of each OLT.
module _ (devices : Devices) (acquired : Text → Bool)
    (ranged : Text → Map Text TempOnu → Map Text TempOnu) where
  -- `WalkOLT`
  unfoldable pub walk_olt : Text → OltManager → OltManager × Option (Result (List SearchItem))
  walk_olt olt_id m =
      let locked = (lock_of olt_id m).1 in
      if not (acquired olt_id)
      then (locked, some (err deadline_exceeded))
      else elim (get_new_client olt_id locked) [
        | err e ↦ (locked, some (err e))
        | ok client ↦
            if (devices client).connects
            then (locked, walk_items (ranged olt_id) (devices client) olt_id)
            else (locked, some (err (message "failed to connect for indexing")))
      ]

  -- the goroutines of `SyncAll`, in the order in which they append
  unfoldable pub collect_items :
      List OltInstance → OltManager → OltManager × Option (List SearchItem)
  collect_items [] m = (m, some [])
  collect_items (olt ∷ olts) m =
      let (m', items) = walk_olt olt.id m in append_found items m' (collect_items olts m')

pub record IndexerService : Type 0 where
  pub manager : OltManager
  pub cache : Option RedisCache
  pub enabled : Bool

module _ (encode : List SearchItem → Option Text) (devices : Devices) (acquired : Text → Bool)
    (ranged : Text → Map Text TempOnu → Map Text TempOnu) (now : ℕ) where
  abbrev store_index : List SearchItem → IndexerService → IndexerService × Result (Unit {0})
  store_index items s = elim s.cache [
    | none ↦ (s, ok tt)
    | some c ↦ elim (encode items) [
      | none ↦ (s, err (message "json: unsupported value"))
      | some data' ↦ (record s { cache = some (set_global_index now data' c) }, ok tt)
    ]
  ]

  -- `SyncAll`; `order` lists the registered OLTs as their goroutines end
  unfoldable pub sync_all :
      List OltInstance → IndexerService → IndexerService × Option (Result (Unit {0}))
  sync_all order s =
      let (m, collected) = collect_items devices acquired ranged order s.manager in
      let s' : IndexerService = record s { manager = m } in
      elim collected [
        | none ↦ (s', none)
        | some items ↦ (let (t, r) = store_index items s' in (t, some r))
      ]

  -- a tick of `StartBackgroundSync`
  unfoldable pub tick :
      List OltInstance → IndexerService → IndexerService × Option (Result (Unit {0}))
  tick order s = if s.enabled then sync_all order s else (s, some (ok tt))

-- `SetEnabled`; `saved` tells whether `cfg.Save` succeeds
unfoldable pub set_enabled : Bool → Bool → IndexerService → IndexerService × Result (Unit {0})
set_enabled saved enabled s =
    (record s { enabled = enabled }, if saved then ok tt else err (message "failed to save config"))
