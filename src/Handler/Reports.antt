-- ===== src/Handler/Reports.antt =====
-- internal/handler/system_handler.go and activity_handler.go, and the settings of
-- internal/handler/search_handler.go.
use zzte.Strings.{is_empty}
use zzte.Strings.Decimal.{atoi}
use zzte.Domain.{ok, err, error_text}
use zzte.Handler.Response.{
  Response, success, error_response, bad_request, internal_error, message_response,
}
use zzte.Service.Activity
use zzte.Service.Activity.{Activity, ActivityService}
use zzte.Service.Indexer.{IndexerService, set_enabled}
use zzte.Service.Manager.{Devices}
use zzte.Service.System
use zzte.Service.System.{Codec, OltSystemInfo, SystemState}
use zzte.Prelude.{
  Bool, List, Option, Text, if◌then◌else◌, int_eq, nat_eq, none, pos, some, text_eq, ℕ, ℤ,
}

module _ (codec : Codec) (devices : Devices) (acquired : Text → Bool) (now : ℕ) where
  -- `GetAllSystemInfo`
  unfoldable pub get_all_system_info : SystemState → SystemState × Response (List OltSystemInfo)
  get_all_system_info s =
      let (s', infos) = System.get_all_system_info codec devices acquired now s in
      (s', success infos)

  -- `GetSystemInfo`
  unfoldable pub get_system_info : Text → SystemState → SystemState × Response OltSystemInfo
  get_system_info olt_id s =
      if is_empty olt_id
      then (s, error_response 400 "OLT ID required")
      else (let (s', answer) = System.get_system_info codec devices acquired now olt_id s in
          elim answer [
            | err e ↦ (s', error_response 404 (error_text e))
            | ok info ↦ (s', success info)
          ])

-- the limit of `List`, by the query
unfoldable pub activity_limit : Text → ℤ
activity_limit val =
    if is_empty val then pos 100 else elim (atoi val) [ none ↦ pos 100 | some parsed ↦ parsed ]

-- `List`
unfoldable pub list_activity : Bool → Text → ActivityService → Response (List Activity)
list_activity reachable val s = success (Activity.list reachable (activity_limit val) s)

-- `ForceSync`: how many syncs are started, and the response
unfoldable pub force_sync : Option IndexerService → ℕ × Response (Unit {0})
force_sync none = (0, internal_error "Indexer service not available")
force_sync (some s) = (1, message_response "Background sync triggered")

-- `GetConfig`, by the value of "enabled"
unfoldable pub get_config : Option IndexerService → Response Bool
get_config none = internal_error "Indexer service not available"
get_config (some s) = success s.enabled

-- `UpdateConfig`; `saved` tells whether the configuration can be saved
unfoldable pub update_config :
    Bool → Option Bool → Option IndexerService → Option IndexerService × Response (Unit {0})
update_config saved body none = (none, internal_error "Indexer service not available")
update_config saved none (some s) = (some s, bad_request "Invalid request body")
update_config saved (some enabled) (some s) =
    let (s', result) = set_enabled saved enabled s in
    elim result [
      | err _ ↦ (some s', internal_error "Failed to save configuration")
      | ok _ ↦ (some s', message_response "Search configuration updated")
    ]
