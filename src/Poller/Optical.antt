-- ===== src/Poller/Optical.antt =====
-- internal/poller/optical.go: `pollPON`, `pollOLT` and `multiErrGroup`. JSON and the order in which
-- the ports are polled are parameters. Nothing here panics: serial numbers are not read.
pub mod Items
pub mod Described
pub mod Served
use zzte.Strings.{is_empty}
use zzte.Domain.{OnuListItem, OnuNameEntry, PonInfo, OltInstance, Result, ok, err, Error, message}
use zzte.Cache.{RedisCache, get_onu_names, set_onu_list_with_ttl, set_pon_list_with_ttl}
use zzte.Snmp.Oids.{build_walk_oid, oid_onu_status, oid_onu_rx_power}
use zzte.Snmp.Values.{SnmpPdu, get_pdu_int}
use zzte.Snmp.Parsers.{Ratio, wrap, parse_onu_status, parse_status_to_int}
use zzte.Snmp.Client.{Agent, bulk_walk}
use zzte.Snmp.Adapter.{FirmwareAdapter}
use zzte.Service.Manager.{OltManager, Devices, get_new_client, get_olt, get_adapter, list_olts}
use zzte.Service.Onus.Walks.{no_power, power_of}
use zzte.Service.Onus.Names.{names_map, put_name}
use zzte.Service.Onus.Listing.{ListCodec, or_absent, store}
use zzte.Service.Onus.Pons.{PonCodec, PonPort, ports_of_board}
use zzte.Poller.Walks.{discover_pons, read_number}
use zzte.Prelude.{
  List, Map, Option, Text, [], any, arith, eqb_ℤ, if◌then◌else◌, insert, int_eq, length, lookup,
  ltb_ℤ, map, nat_eq, negsuc, none, not, pos, some, sort_by, suc, text_eq, ℕ, ℤ, ◌*◌, ◌+ℤ◌, ◌-◌,
  ◌∷◌,
}

-- `tempONU`
pub record TempOnu : Type 0 where
  pub status : Text
  pub status_code : ℤ
  pub rx_power : Ratio

-- the loop over the states
unfoldable pub read_statuses : Text → List SnmpPdu → Map ℤ TempOnu → Map ℤ TempOnu
read_statuses status_oid [] onus = onus
read_statuses status_oid (pdu ∷ results) onus =
    read_statuses status_oid results (elim (read_number status_oid pdu) [
      | none ↦ onus
      | some (onu_id, _) ↦
          insert onu_id
            (record {
              status = parse_onu_status (some pdu);
              status_code = parse_status_to_int (some pdu);
              rx_power = no_power;
            })
            onus
    ])

-- the write of a power, to an ONU that was found
unfoldable pub put_power : Option FirmwareAdapter → SnmpPdu → ℤ → Map ℤ TempOnu → Map ℤ TempOnu
put_power adapter pdu onu_id onus = elim (lookup onu_id onus) [
  | none ↦ onus
  | some o ↦ insert onu_id (record o { rx_power = power_of adapter (get_pdu_int (some pdu)) }) onus
]

-- the loop over the powers, of which a variable has two parts after the table's identifier at least
unfoldable pub read_powers :
    Option FirmwareAdapter → Text → List SnmpPdu → Map ℤ TempOnu → Map ℤ TempOnu
read_powers adapter rx_oid [] onus = onus
read_powers adapter rx_oid (pdu ∷ results) onus =
    read_powers adapter rx_oid results (elim (read_number rx_oid pdu) [
      | none ↦ onus
      | some (onu_id, more) ↦ if is_empty more then onus else put_power adapter pdu onu_id onus
    ])

-- The two walks of a port: the states make up the ONUs, the powers are added where they are read.
unfoldable pub walk_onus : Agent → Option FirmwareAdapter → ℤ → Result (Map ℤ TempOnu)
walk_onus agent adapter if_index = elim (bulk_walk agent (build_walk_oid oid_onu_status if_index)) [
  | err _ ↦ err (message "walk status gagal")
  | ok results ↦
      (let onus = read_statuses (build_walk_oid oid_onu_status if_index) results [] in
        if is_empty onus
        then ok []
        else elim (bulk_walk agent (build_walk_oid oid_onu_rx_power if_index)) [
          | err _ ↦ ok onus
          | ok powers ↦
              ok (read_powers adapter (build_walk_oid oid_onu_rx_power if_index) powers onus)
        ])
]

unfoldable pub to_item : Text → ℤ → ℤ → ℤ × TempOnu → OnuListItem
to_item olt_id board pon (onu_id, o) = record {
  olt_id = olt_id;
  board = board;
  pon = pon;
  onu_id = onu_id;
  name = [];
  serial_number = [];
  status = o.status;
  status_code = o.status_code;
  rx_power = o.rx_power;
}

-- the items of a port, sorted
unfoldable pub sorted_items : Text → ℤ → ℤ → Map ℤ TempOnu → List OnuListItem
sorted_items olt_id board pon onus =
    sort_by (λ (item : OnuListItem). item.onu_id) (map (to_item olt_id board pon) onus)

-- names and serial numbers from the names cache
unfoldable pub with_names :
    (Text → Option (List OnuNameEntry)) → Option Text → List OnuListItem → List OnuListItem
with_names decode_names none items = items
with_names decode_names (some names_data) items =
    if is_empty names_data then items else elim (decode_names names_data) [
      | none ↦ items
      | some names ↦ map (put_name (names_map names)) items
    ]

module _ (codec : ListCodec) (now : ℕ) (olt_id : Text) where
  -- the items as they are stored
  unfoldable pub named_items : ℤ → ℤ → List OnuListItem → Option RedisCache → List OnuListItem
  named_items board pon items none = items
  named_items board pon items (some c) =
      with_names codec.decode_names (get_onu_names now olt_id board pon c) items

  unfoldable pub cache_items : ℤ → ℤ → ℤ → List OnuListItem → Option RedisCache → Option RedisCache
  cache_items board pon ttl items none = none
  cache_items board pon ttl items (some c) =
      some (
        store (codec.encode items) (λ data'. set_onu_list_with_ttl now olt_id board pon data' ttl)
          c)

  -- `pollPON`: the number of ONUs
  unfoldable pub poll_pon :
      Agent
      → Option FirmwareAdapter
      → ℤ
      → PonPort
      → Option RedisCache
      → Option RedisCache × Result ℕ
  poll_pon agent adapter ttl port cache = elim (walk_onus agent adapter port.if_index) [
    | err e ↦ (cache, err e)
    | ok onus ↦
        if is_empty onus
        then (cache, ok 0)
        else (let board = port.info.board in
            let pon = port.info.pon in
            let items = named_items board pon (sorted_items olt_id board pon onus) cache in
            (cache_items board pon ttl items cache, ok (length items)))
  ]

  -- the goroutines of `pollOLT`, in the order in which they write
  unfoldable pub poll_ports :
      Agent → Option FirmwareAdapter → ℤ → List PonPort → Option RedisCache → Option RedisCache
  poll_ports agent adapter ttl [] cache = cache
  poll_ports agent adapter ttl (port ∷ ports) cache =
      poll_ports agent adapter ttl ports (poll_pon agent adapter ttl port cache).0

-- a number of seconds as a `time.Duration`
abbrev pub nanoseconds : ℤ → ℤ
nanoseconds (pos n) = wrap (pos (n * 1000000000))
nanoseconds (negsuc n) = wrap (negsuc (suc n * 1000000000 - 1))

-- the interval of the OLT in seconds where it is positive, and that of the configuration otherwise
abbrev pub interval_seconds : ℤ → Option OltInstance → ℤ
interval_seconds configured none = configured
interval_seconds configured (some o) =
    if ltb_ℤ (pos 0) o.config.poll_interval then o.config.poll_interval else configured

abbrev pub or_minute : ℤ → ℤ
or_minute interval = if ltb_ℤ (pos 0) interval then interval else pos 60000000000

-- `pollInterval`
unfoldable pub poll_interval : ℤ → Option OltInstance → ℤ
poll_interval configured olt = or_minute (nanoseconds (interval_seconds configured olt))

-- how long a polled list is kept
unfoldable pub poll_ttl : ℤ → Option OltInstance → ℤ
poll_ttl configured olt = let interval = poll_interval configured olt in wrap (interval +ℤ interval)

abbrev day : ℤ
day = pos (24 * 60 * 60 * 1000000000)

-- the boards of the ports, each once
unfoldable pub boards_of : List PonPort → List ℤ
boards_of [] = []
boards_of (port ∷ ports) =
    let rest = boards_of ports in
    if any (λ (b : ℤ). eqb_ℤ b port.info.board) rest then rest else port.info.board ∷ rest

module _ (encode : List PonInfo → Option Text) (now : ℕ) (olt_id : Text) where
  -- the ports of each board, for a day
  unfoldable pub cache_boards : List PonPort → List ℤ → RedisCache → RedisCache
  cache_boards pons [] c = c
  cache_boards pons (board ∷ boards) c = cache_boards pons boards (
      store (encode (ports_of_board board pons))
        (λ data'. set_pon_list_with_ttl now olt_id board data' day) c)

  unfoldable pub cache_ports : List PonPort → Option RedisCache → Option RedisCache
  cache_ports pons none = none
  cache_ports pons (some c) = some (cache_boards pons (boards_of pons) c)

-- `pollOLT`; `order` arranges the ports as they are polled
unfoldable pub poll_olt :
    ListCodec
    → PonCodec
    → Devices
    → (List PonPort → List PonPort)
    → ℕ
    → ℤ
    → OltManager
    → Text
    → Option RedisCache
    → Option RedisCache × Result (Unit {0})
poll_olt codec pon_codec devices order now configured m olt_id cache =
    elim (get_new_client olt_id m) [
      | err _ ↦ (cache, err (message "gagal mendapat client SNMP"))
      | ok client ↦
          if not (devices client).connects
          then (cache, err (message "gagal konek ke OLT"))
          else elim (discover_pons (devices client)) [
            | err _ ↦ (cache, err (message "gagal discover PON"))
            | ok pons ↦ if is_empty pons then (cache, ok tt) else (
              poll_ports codec now olt_id (devices client) (or_absent (get_adapter olt_id m))
                  (poll_ttl configured (or_absent (get_olt olt_id m))) (order pons)
                  (cache_ports pon_codec.encode now olt_id pons cache),
              ok tt,
            )
          ]
    ]

-- `multiErrGroup`: the first error that is added is kept
unfoldable pub first_error : Result (Unit {0}) → Result (Unit {0}) → Result (Unit {0})
first_error (err e) result = err e
first_error (ok _) result = result

-- `triggerPollAll` and `Wait`, for the OLTs in the order in which their goroutines end
unfoldable pub trigger_poll_all :
    (Text → Option RedisCache → Option RedisCache × Result (Unit {0}))
    → List OltInstance
    → Option RedisCache
    → Option RedisCache × Result (Unit {0})
trigger_poll_all poll [] cache = (cache, ok tt)
trigger_poll_all poll (olt ∷ olts) cache =
    let (cache', result) = poll olt.id cache in
    let (cache'', later) = trigger_poll_all poll olts cache' in (cache'', first_error result later)
