-- ===== src/Apis/TorUtil.antt =====
-- apis/tor/v1alpha2/tor_util.go
pub mod Defaults
use tor_controller.Base.{
  ℕ, String, Bool, true, false, ◌||◌, List, [], ◌∷◌, some, ◌==◌, if◌then◌else◌, str_eq, any,
}
use tor_controller.Base.GoMap.{GoMap}
use tor_controller.Kube.Types.{PodTemplateSpec}
use tor_controller.Apis.Types.{
  Tor, TorSpec, TorClientSpec, TorServerSpec, TorControlSpec, TorGenericPortSpec,
  TorGenericPortWithFlagSpec, TorGenericPortDef,
}
use tor_controller.Apis.Format.{suffixed}

abbrev pub dns_port : ℕ
dns_port = 53

abbrev pub natd_port : ℕ
natd_port = 8082

abbrev pub http_tunnel_port : ℕ
http_tunnel_port = 8080

abbrev pub trans_port : ℕ
trans_port = 8081

abbrev pub socks_port : ℕ
socks_port = 9050

abbrev pub control_port : ℕ
control_port = 9051

abbrev pub metrics_port : ℕ
metrics_port = 9035

abbrev pub server_port : ℕ
server_port = 9999

unfoldable pub deployment_name : Tor → String
deployment_name tor = suffixed tor.object_meta.name "-tor-daemon"

unfoldable pub config_map_name : Tor → String
config_map_name tor = suffixed tor.object_meta.name "-tor-config"

unfoldable pub instance_name : Tor → String
instance_name tor = suffixed tor.object_meta.name "-tor-svc"

unfoldable pub service_metrics_name : Tor → String
service_metrics_name tor = suffixed tor.object_meta.name "-tor-metrics-svc"

unfoldable pub service_metrics_selector : Tor → GoMap String
service_metrics_selector tor =
    ("app", service_metrics_name tor) ∷ ("controller", tor.object_meta.name) ∷ []

unfoldable pub service_selector : Tor → GoMap String
service_selector tor = ("app", instance_name tor) ∷ ("controller", tor.object_meta.name) ∷ []

unfoldable pub service_name : Tor → String
service_name tor = suffixed tor.object_meta.name "-tor-svc"

unfoldable pub secret_name : Tor → String
secret_name tor = suffixed tor.object_meta.name "-tor-secret"

unfoldable pub deployment_labels : Tor → GoMap String
deployment_labels tor = service_selector tor

unfoldable pub role_name : Tor → String
role_name tor = suffixed tor.object_meta.name "-tor-role"

unfoldable pub service_account_name : Tor → String
service_account_name tor = suffixed tor.object_meta.name "-tor-sa"

-- The default of a list that is empty.
abbrev pub or_default : List String → List String → List String
or_default [] d = d
or_default (x ∷ xs) d = x ∷ xs

unfoldable pub set_ports_defaults : ℕ → TorGenericPortWithFlagSpec → TorGenericPortWithFlagSpec
set_ports_defaults port_default p = record {
  generic = record {
    enable = p.enable;
    port = if p.port == 0 then port_default else p.port;
    address = or_default p.address ("0.0.0.0" ∷ "::" ∷ []);
  };
  flags = p.flags;
  policy = or_default p.policy ("accept 0.0.0.0/0" ∷ "accept ::/0" ∷ []);
}

-- The flags of the loop over the ports but control and metrics.
unfoldable pub any_port_enabled : TorSpec → Bool
unfolding any
any_port_enabled s =
    any (λ enabled. enabled)
      (s.client.dns.enable ∷ s.client.natd.enable ∷ s.client.http_tunnel.enable
        ∷ s.client.trans.enable ∷ s.client.socks.enable ∷ s.server.enable ∷ [])

set_client_defaults : TorClientSpec → TorClientSpec
set_client_defaults c = record {
  dns = set_ports_defaults dns_port c.dns;
  natd = set_ports_defaults natd_port c.natd;
  socks = set_ports_defaults socks_port c.socks;
  http_tunnel = set_ports_defaults http_tunnel_port c.http_tunnel;
  trans = set_ports_defaults trans_port c.trans;
  trans_proxy_type = if str_eq c.trans_proxy_type "" then "default" else c.trans_proxy_type;
}

set_port_and_type_defaults : TorSpec → TorSpec
set_port_and_type_defaults s = record s {
  client = set_client_defaults s.client;
  server = record { with_flag = set_ports_defaults server_port s.server.with_flag };
  control = record s.control { with_flag = set_ports_defaults control_port s.control.with_flag };
  metrics = set_ports_defaults metrics_port s.metrics;
}

enable_socks : TorSpec → TorSpec
enable_socks s = record s {
  client = record s.client {
    socks = record s.client.socks { generic = record s.client.socks.generic { enable = true } };
  };
}

unfoldable pub set_spec_defaults : TorSpec → TorSpec
unfolding set_client_defaults set_port_and_type_defaults enable_socks any_port_enabled
set_spec_defaults s =
    let s' = set_port_and_type_defaults s in if any_port_enabled s' then s' else enable_socks s'

unfoldable pub set_tor_defaults : Tor → Tor
unfolding set_spec_defaults
set_tor_defaults tor = record tor { spec = set_spec_defaults tor.spec }

unfoldable pub get_all_ports : Tor → List TorGenericPortDef
get_all_ports tor =
    record { name = "control"; protocol = "TCP"; port = tor.spec.control.generic }
    ∷ record { name = "metrics"; protocol = "TCP"; port = tor.spec.metrics.generic }
    ∷ record { name = "server"; protocol = "TCP"; port = tor.spec.server.generic }
    ∷ record { name = "dns"; protocol = "UDP"; port = tor.spec.client.dns.generic }
    ∷ record { name = "httptunnel"; protocol = "TCP"; port = tor.spec.client.http_tunnel.generic }
    ∷ record { name = "natd"; protocol = "TCP"; port = tor.spec.client.natd.generic }
    ∷ record { name = "socks"; protocol = "TCP"; port = tor.spec.client.socks.generic }
    ∷ record { name = "trans"; protocol = "TCP"; port = tor.spec.client.trans.generic }
    ∷ []

unfoldable pub pod_template : Tor → PodTemplateSpec
pod_template tor = record {
  object_meta = tor.spec.template.object_meta;
  spec = tor.spec.template.spec;
}

unfoldable pub resources : Tor → String
resources tor = tor.spec.template.resources
