-- ===== src/Service/Onus/Pons.antt =====
-- `GetPONList` of internal/service/onu_service.go, and `discoverPONs` of both pollers: PON ports
-- from their descriptions.
use zzte.Strings.{strip_prefix, trim, is_empty}
use zzte.Strings.Decimal.{atoi}
use zzte.Domain.{PonInfo, Result, ok, err, message}
use zzte.Cache
use zzte.Cache.{RedisCache, set_pon_list}
use zzte.Snmp.IfIndex.{parse_if_index}
use zzte.Snmp.Oids.{oid_pon_description}
use zzte.Snmp.Values.{SnmpPdu, pdu_to_string}
use zzte.Snmp.Client.{walk}
use zzte.Service.Manager.{Devices, get_client}
use zzte.Service.Onus.Listing.{OnuService, store}
use zzte.Prelude.{
  Bool, List, Option, Text, [], eqb_ℤ, if◌then◌else◌, int_eq, map, nat_eq, none, pos, select, some,
  sort_by, text_eq, ℕ, ℤ, ◌++◌, ◌==◌, ◌∷◌,
}

-- encoding/json on a list of ports.
pub record PonCodec : Type 0 where
  pub encode : List PonInfo → Option Text
  pub decode : Text → Option (List PonInfo)

-- The port that a variable describes, with its index: what follows the identifier of the table has
-- to be a number.
pub record PonPort : Type 0 where
  pub info : PonInfo
  pub if_index : ℤ

abbrev pub is_quote : ℕ → Bool
is_quote c = c == 34

unfoldable pub read_port : SnmpPdu → Option PonPort
read_port pdu = elim (strip_prefix (oid_pon_description ++ b'.' ∷ []) pdu.name) [
  | none ↦ none
  | some suffix ↦ elim (atoi suffix) [
    | none ↦ none
    | some if_index ↦
        (let (_, slot, port) = parse_if_index if_index in
          some (record {
            info = record {
              board = pos slot;
              pon = pos port;
              description = trim is_quote (pdu_to_string pdu);
            };
            if_index = if_index;
          }))
  ]
]

-- the ports of a walk, in its order
unfoldable pub read_ports : List SnmpPdu → List PonPort
read_ports [] = []
read_ports (pdu ∷ results) = elim (read_port pdu) [
  | none ↦ read_ports results
  | some port ↦ port ∷ read_ports results
]

-- the ports of one board, sorted
unfoldable pub ports_of_board : ℤ → List PonPort → List PonInfo
ports_of_board board ports =
    sort_by (λ (p : PonInfo). p.pon)
      (select (λ (p : PonInfo). eqb_ℤ p.board board) (map (λ (p : PonPort). p.info) ports))

module _ (codec : PonCodec) where
  unfoldable pub cached_pons : ℕ → Text → ℤ → Option RedisCache → Option (List PonInfo)
  cached_pons now olt_id board none = none
  cached_pons now olt_id board (some c) = elim (Cache.get_pon_list now olt_id board c) [
    | none ↦ none
    | some cache_data ↦ codec.decode cache_data
  ]

  unfoldable pub cache_pons : ℕ → Text → ℤ → List PonInfo → Option RedisCache → Option RedisCache
  cache_pons now olt_id board pons none = none
  cache_pons now olt_id board pons (some c) =
      if is_empty pons
      then some c
      else some (store (codec.encode pons) (λ data'. set_pon_list now olt_id board data') c)

  -- `GetPONList`, at one time
  unfoldable pub get_pon_list :
      Devices → ℕ → Text → ℤ → OnuService → OnuService × Result (List PonInfo)
  get_pon_list devices now olt_id board s = elim (cached_pons now olt_id board s.cache) [
    | some pons ↦ (s, ok pons)
    | none ↦ elim (get_client olt_id s.manager) [
      | err e ↦ (s, err e)
      | ok client ↦ elim (walk (devices client) oid_pon_description) [
        | err _ ↦ (s, err (message "SNMP walk failed"))
        | ok results ↦
            (let pons = ports_of_board board (read_ports results) in
              (record s { cache = cache_pons now olt_id board pons s.cache }, ok pons))
      ]
    ]
  ]
