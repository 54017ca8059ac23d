-- ===== src/Agents/OnionBalance/Config.antt =====
-- agents/onionbalance/config/config.go
pub mod Backends
use tor_controller.Base.{String, List, [], ◌∷◌, if◌then◌else◌}
use tor_controller.Base.GoMap.{GoMap}
use tor_controller.Apis.Types.{OnionServiceStatus}
use tor_controller.Apis.OnionBalancedServiceUtil.{has_hostname}

pub record Instance : Type 0 where
  pub name : String
  pub address : String

pub record BalancedService : Type 0 where
  pub instances : List Instance
  pub key : String

pub record Config : Type 0 where
  pub services : List BalancedService

-- The loop over the backends, in the order in which the map yields them.
unfoldable pub instances : GoMap OnionServiceStatus → List Instance
instances [] = []
instances ((name, b) ∷ backends) =
    let rest = instances backends in
    if has_hostname (name, b) then record { name = name; address = b.hostname } ∷ rest else rest

unfoldable pub config_for : GoMap OnionServiceStatus → Config
unfolding instances
config_for backends = record {
  services = record { instances = instances backends; key = "key/privateKeyFile" } ∷ [];
}
