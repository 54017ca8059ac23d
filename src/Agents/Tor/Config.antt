-- ===== src/Agents/Tor/Config.antt =====
-- agents/tor/config/config.go: the texts that the templates give. Executing a template into memory
-- does not fail.
use Prim.Native.String.{◌++◌}
use tor_controller.Base.{ℕ, String, Bool, not, List, [], ◌∷◌, map, if◌then◌else◌, str_eq}
use tor_controller.Apis.Types.{OnionService, ServiceRule}
use tor_controller.Apis.OnionServiceUtil.{get_version, service_name}
use tor_controller.Apis.Format.{decimal}

pub record PortTuple : Type 0 where
  pub service_port : ℕ
  pub public_port : ℕ
  pub service_cluster_ip : String

pub record TorConfig : Type 0 where
  pub socks_port : String
  pub control_port : String
  pub metrics_port : String
  pub metrics_port_policy : String
  pub service_name : String
  pub service_namespace : String
  pub service_dir : String
  pub version : ℕ
  pub ports : List PortTuple
  pub master_onion_address : String
  pub hidden_service_onionbalance_instance : Bool
  pub extra_config : String

unfoldable pub port_tuple : ServiceRule → PortTuple
port_tuple rule = record {
  service_port = rule.backend_service.port.number;
  public_port = rule.port.number;
  service_cluster_ip = rule.backend_service.name;
}

unfoldable pub onion_service_input_data : OnionService → TorConfig
unfolding port_tuple get_version
onion_service_input_data onion = record {
  socks_port = "0";
  control_port = "0";
  metrics_port = "0.0.0.0:9035";
  metrics_port_policy = "accept 0.0.0.0/0";
  service_name = service_name onion;
  service_namespace = onion.object_meta.namespace;
  service_dir = "/run/tor/service";
  version = get_version onion.spec;
  ports = map port_tuple onion.spec.rules;
  master_onion_address = onion.spec.master_onion_address;
  hidden_service_onionbalance_instance = not (str_eq onion.spec.master_onion_address "");
  extra_config = onion.spec.extra_config;
}

-- {{ range .Ports }} … {{ end }}
unfoldable pub port_lines : List PortTuple → String
unfolding decimal
port_lines [] = ""
port_lines (p ∷ ps) =
    "\nHiddenServicePort "
    ++ (decimal p.public_port
        ++ (" "
            ++ (p.service_cluster_ip
                ++ (":" ++ (decimal p.service_port ++ ("\n" ++ port_lines ps))))))

-- {{ if .HiddenServiceOnionbalanceInstance }} … {{ end }}
abbrev instance_lines : Bool → String
instance_lines b = if b then "\nHiddenServiceOnionbalanceInstance 1\n" else ""

-- {{ if .ExtraConfig }} … {{ end }}
abbrev extra_lines : String → String
extra_lines extra =
    if str_eq extra ""
    then ""
    else "\n# ExtraConfig [START]\n" ++ (extra ++ "\n# ExtraConfig [END]\n")

unfoldable pub config_format : TorConfig → String
unfolding port_lines
config_format c =
    "\nSocksPort "
    ++ (c.socks_port
        ++ ("\nControlPort "
            ++ (c.control_port
                ++ ("\nMetricsPort "
                    ++ (c.metrics_port
                        ++ ("\nMetricsPortPolicy "
                            ++ (c.metrics_port_policy
                                ++ ("\nHiddenServiceDir "
                                    ++ (c.service_dir
                                        ++ ("\n"
                                            ++ (instance_lines
                                                  c.hidden_service_onionbalance_instance
                                                ++ ("\nHiddenServiceVersion "
                                                    ++ (decimal c.version
                                                        ++ ("\n"
                                                            ++ (port_lines c.ports
                                                            ++ ("\n\n"
                                                            ++ (extra_lines c.extra_config
                                                            ++ "\n")))))))))))))))))

unfoldable pub ob_config_format : TorConfig → String
ob_config_format c =
    "\n"
    ++ ((if c.hidden_service_onionbalance_instance
          then "\nMasterOnionAddress " ++ (c.master_onion_address ++ "\n")
          else "")
        ++ "\n")

unfoldable pub tor_config_for_service : OnionService → String
unfolding onion_service_input_data config_format
tor_config_for_service onion = config_format (onion_service_input_data onion)

unfoldable pub ob_config_for_service : OnionService → String
unfolding onion_service_input_data ob_config_format
ob_config_for_service onion = ob_config_format (onion_service_input_data onion)
