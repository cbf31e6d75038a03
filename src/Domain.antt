-- ===== src/Domain.antt =====
-- internal/domain: the records that the services and handlers exchange. An instant is a number of
-- nanoseconds, in which 0 is Go's zero time; power and distance are exact fractions.
use zzte.Snmp.Parsers.{Ratio}
use zzte.Prelude.{
  Bool, List, Map, String, Text, inl, inr, int_eq, nat_eq, refl, text_eq, ℤ, ◌≡◌, ◌⊎◌,
}

-- domain/errors.go, and the errors of libraries, by their text
pub data Error : Type 0 where
  olt_not_found olt_already_exists onu_not_found deadline_exceeded canceled : Error
  message : String → Error

-- `Error()` of an error
abbrev pub error_text : Error → String
error_text olt_not_found = "OLT not found"
error_text olt_already_exists = "OLT already exists"
error_text onu_not_found = "ONU not found"
error_text deadline_exceeded = "context deadline exceeded"
error_text canceled = "context canceled"
error_text (message text) = text

-- A Go result of a value and an error.
pub data Result {ℓ} (A : Type ℓ) : Type ℓ where
  err : Error → Result A
  ok : A → Result A

module _ {ℓ κ} {A : Type ℓ} {B : Type κ} where
  infixl 5 ◌>>=◌
  -- the early return on an error
  abbrev pub ◌>>=◌ : Result A → (A → Result B) → Result B
  err e >>= next = err e
  ok value >>= next = next value

  pub >>=-eq-ok :
      (r : Result A) (next : A → Result B) {b : B}
      → (r >>= next) ≡ ok b
      → (a : A) × (r ≡ ok a) × (next a ≡ ok b)
  >>=-eq-ok (err e) next h = cc
  >>=-eq-ok (ok value) next h = (value, refl, h)

pub Result-cases {ℓ} :
    {A : Type ℓ} (r : Result A) → ((a : A) × (r ≡ ok a)) ⊎ ((e : Error) × (r ≡ err e))
Result-cases (ok a) = inl (a, refl)
Result-cases (err e) = inr (e, refl)

pub ok-injective {ℓ} : {A : Type ℓ} {a b : A} → ok a ≡ ok b → a ≡ b
ok-injective h = cc

pub record SnmpConfig : Type 0 where
  pub host : Text
  pub port : ℤ
  pub community : Text
  pub timeout : ℤ
  pub retries : ℤ

pub record TelnetConfig : Type 0 where
  pub user : Text
  pub password : Text
  pub port : ℤ

pub record PonInfo : Type 0 where
  pub board : ℤ
  pub pon : ℤ
  pub description : Text

-- `domain.OLTConfig`; its fields `IsOnline` and `LastCheck` are never written by the program.
pub record OltConfig : Type 0 where
  pub id : Text
  pub name : Text
  pub snmp : SnmpConfig
  pub telnet : TelnetConfig
  pub vlan_profiles : Map Text Text
  pub poll_interval : ℤ

pub record OltInstance : Type 0 where
  pub id : Text
  pub name : Text
  pub config : OltConfig
  pub snmp : SnmpConfig
  pub telnet : TelnetConfig

pub record OltCreateRequest : Type 0 where
  pub id : Text
  pub name : Text
  pub snmp : SnmpConfig
  pub telnet : TelnetConfig

pub record Onu : Type 0 where
  pub olt_id : Text
  pub board : ℤ
  pub pon : ℤ
  pub onu_id : ℤ
  pub name : Text
  pub serial_number : Text
  pub type : Text
  pub status : Text
  pub status_code : ℤ
  pub rx_power : Ratio
  pub tx_power : Ratio
  pub last_online : ℤ
  pub last_offline : ℤ
  pub offline_reason : Text
  pub offline_code : ℤ
  pub wan_ip : Text

pub record OnuListItem : Type 0 where
  pub olt_id : Text
  pub board : ℤ
  pub pon : ℤ
  pub onu_id : ℤ
  pub name : Text
  pub serial_number : Text
  pub status : Text
  pub status_code : ℤ
  pub rx_power : Ratio

pub record OnuNameEntry : Type 0 where
  pub onu_id : ℤ
  pub name : Text
  pub serial_number : Text

-- `(*ONU).ToListItem`
unfoldable pub to_list_item : Onu → OnuListItem
to_list_item o = record {
  olt_id = o.olt_id;
  board = o.board;
  pon = o.pon;
  onu_id = o.onu_id;
  name = o.name;
  serial_number = o.serial_number;
  status = o.status;
  status_code = o.status_code;
  rx_power = o.rx_power;
}

pub record SearchItem : Type 0 where
  pub olt_id : Text
  pub board : ℤ
  pub pon : ℤ
  pub onu_id : ℤ
  pub name : Text
  pub serial_number : Text
  pub status : Text

pub record UnconfiguredOnu : Type 0 where
  pub board : ℤ
  pub pon : ℤ
  pub onu_id : ℤ
  pub sn : Text
  pub type : Text
  pub state : Text

pub record ProvisioningRequest : Type 0 where
  pub olt_id : Text
  pub board : ℤ
  pub pon : ℤ
  pub onu_id : ℤ
  pub sn : Text
  pub template_id : Text
  pub name : Text
  pub bandwidth : Text
  pub vlan_internet : ℤ
  pub vlan_hotspot : ℤ
  pub vlan_profile_internet : Text
  pub vlan_profile_hotspot : Text
  pub pppoe_user : Text
  pub pppoe_pass : Text

-- One step of a provisioning run; the wall clock time of each entry is left out.
pub record ProvisioningLog : Type 0 where
  pub step : Text
  pub command : Text
  pub status : Text
  pub message : Text

pub record ProvisioningResponse : Type 0 where
  pub success : Bool
  pub message : Text
  pub logs : List ProvisioningLog
