-- ===== src/Config/Tests.antt =====
-- Runs of the checks at a concrete configuration.
use fubuki_test.Base.{ℕ, ◌≡◌, refl, none, some, [], ◌∷◌, ◌==◌, err}
use fubuki_test.Protocol.{tcp}
use fubuki_test.Ipnet.Sample.{SampleNet}
use fubuki_test.Config.{System, TargetGroup, NodeConfig, finalize_group, only_udp}

-- 1 is the loopback address, 0 the unspecified one, and 100 one of IPv6.
abbrev system : System SampleNet ℕ
system = record {
  is_loopback = λ a. a == 1;
  is_unspecified = λ a. a == 0;
  is_ipv6 = λ a. a == 100;
  resolve = λ name. some 7;
  get_interface_addr = λ a. some 8;
  gethostname = some (104 ∷ []);
  gateway_device = none;
  is_default_route = λ n. n.prefix_len == 0;
  hash = λ l. l;
}

abbrev group : TargetGroup SampleNet ℕ
group = record {
  node_name = none;
  server_addr = 115 ∷ [];
  tun_addr = none;
  key = none;
  mode = none;
  specify_mode = none;
  lan_ip_addr = some 100;
  node_binding_port = none;
  allowed_ips = none;
  ips = none;
  auto_route_selection = none;
}

abbrev config : NodeConfig SampleNet ℕ
config = record {
  mtu = none;
  channel_limit = none;
  api_addr = none;
  tcp_heartbeat_interval_secs = none;
  udp_heartbeat_interval_secs = none;
  tcp_heartbeat_continuous_loss = none;
  udp_heartbeat_continuous_loss = none;
  udp_heartbeat_continuous_recv = none;
  reconnect_interval_secs = none;
  udp_socket_recv_buffer_size = none;
  udp_socket_send_buffer_size = none;
  external_routing_table = none;
  allow_packet_forward = none;
  allow_packet_not_in_rules_send_to_kernel = none;
  enable_hook = none;
  socket_bind_device = some (101 ∷ []);
  cross_nat = none;
  groups = group ∷ record group { lan_ip_addr = none } ∷ [];
  features = none;
}

-- TCP between nodes is refused.
refused_run :
    finalize_group system (record group { mode = some (record { p2p = tcp ∷ []; relay = [] }) })
    ≡ err only_udp
unfolding finalize_group
refused_run = refl
