-- ===== src/Snmp/Client/Defaults.antt =====
-- The defaults of a new client, and its clones.
use zzte.Domain.{SnmpConfig}
use zzte.Snmp.Client.{new_client, clone}
use zzte.Prelude.{[], arith, int_eq, nat_eq, pos, refl, text_eq, ◌≡◌, ◌≢◌}

-- A client's port, timeout, retries and community are never the zero values, its host is the given
-- one, and a clone has the settings of its original.
pub clone-new_client :
    (config : SnmpConfig)
    → (clone (new_client config) ≡ new_client config)
      × ((new_client config).config.port ≢ pos 0)
      × ((new_client config).config.timeout ≢ pos 0)
      × ((new_client config).config.retries ≢ pos 0)
      × ((new_client config).config.community ≢ [])
      × ((new_client config).config.host ≡ config.host)
unfolding clone
clone-new_client config =
    (ground arith, ground arith, ground arith, ground arith, ground arith, refl)
