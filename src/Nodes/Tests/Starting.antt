-- ===== src/Nodes/Tests/Starting.antt =====
-- A run of `start` with an accepted configuration of one group.
use mathlib.Core.List.{Memᴰ}
use fubuki_test.Base.{
  ℕ, ◌≡◌, refl, true, false, none, some, [], ◌∷◌, ◌==◌, length, replicate, arith, ok,
}
use fubuki_test.Ipnet.Sample.{SampleNet, sample_ip}
use fubuki_test.Protocol.{default_mode, is_use_udp}
use fubuki_test.Routing.Array.{array_table, ArrayRoutingTable}
use fubuki_test.Config.{
  System, TargetGroup, TargetGroupFinalize, NodeConfig, NodeConfigFinalize, try_from,
  finalize_group, finalize_groups, lan_addr, bind_device, group_finalize, uses_of, config_finalize,
  flag,
}
use fubuki_test.Nodes.{Interface, extended_from}
use fubuki_test.Nodes.Sending.{send}
use fubuki_test.Nodes.Sending.Calm.{Returns}
use fubuki_test.Nodes.Start.{
  StartSystem, Started, start, start_groups, new_interface, init_routing_table, specified, tcp_task,
  udp_task, tun_task, api_task,
}
use fubuki_test.Nodes.Start.Wiring.{start-send-Returns}
use fubuki_test.Nodes.Tests.{direct-IsPathSearch, reached, direct}
use fubuki_test.Nodes.Tests.Delivery.{all_suppressed, behind_eight}

abbrev system : System SampleNet ℕ
system = record {
  is_loopback = λ a. a == 1;
  is_unspecified = λ a. a == 0;
  is_ipv6 = λ a. a == 100;
  resolve = λ name. some 7;
  get_interface_addr = λ a. some 8;
  gethostname = some (104 ∷ []);
  gateway_device = none;
  is_default_route = λ n. n.prefix_len == 0;
  hash = λ l. replicate 32 5;
}

abbrev group : TargetGroup SampleNet ℕ
group = record {
  node_name = none;
  server_addr = 115 ∷ [];
  tun_addr = none;
  key = some (107 ∷ []);
  mode = none;
  specify_mode = none;
  lan_ip_addr = some 100;
  node_binding_port = none;
  allowed_ips = none;
  ips = none;
  auto_route_selection = none;
}

abbrev config : NodeConfig SampleNet ℕ
config = record {
  mtu = none;
  channel_limit = none;
  api_addr = none;
  tcp_heartbeat_interval_secs = none;
  udp_heartbeat_interval_secs = none;
  tcp_heartbeat_continuous_loss = none;
  udp_heartbeat_continuous_loss = none;
  udp_heartbeat_continuous_recv = none;
  reconnect_interval_secs = none;
  udp_socket_recv_buffer_size = none;
  udp_socket_send_buffer_size = none;
  external_routing_table = none;
  allow_packet_forward = none;
  allow_packet_not_in_rules_send_to_kernel = none;
  enable_hook = none;
  socket_bind_device = some (101 ∷ []);
  cross_nat = none;
  groups = group ∷ [];
  features = none;
}

abbrev pub ready_group : TargetGroupFinalize SampleNet ℕ
ready_group = group_finalize system group default_mode 100 (104 ∷ [])

abbrev pub ready_config : NodeConfigFinalize SampleNet ℕ
ready_config =
    config_finalize system config (ready_group ∷ []) (uses_of system group default_mode 100)
      (some (101 ∷ []))

abbrev willing : StartSystem ℕ
willing = record {
  is_ipv6 = λ a. a == 100;
  set_mtu = λ n. true;
  open_hooks = true;
  load_table = true;
  create_snat = true;
  new_route_handle = true;
  bind = λ v p. true;
  set_recv_buffer_size = λ n. true;
  set_send_buffer_size = λ n. true;
  bind_device = λ d v. true;
}

abbrev everywhere : SampleNet
everywhere = record { addr = 0; prefix_len = 0 }

abbrev first : Interface SampleNet
first = new_interface everywhere 0 0 ready_group true

abbrev running : Started SampleNet (ArrayRoutingTable SampleNet)
running = record {
  interfaces = first ∷ [];
  table = [];
  has_snat = false;
  tasks = tcp_task 0 [] ∷ udp_task 0 ∷ tun_task false ∷ api_task ∷ [];
}

-- The interface when it has joined as 10.0.0.1.
abbrev joined : Interface SampleNet
joined = record first { addr = 167772161; server_is_connected = true }

accepted : try_from system config ≡ ok ready_config
unfolding try_from finalize_groups finalize_group lan_addr bind_device is_use_udp
accepted = refl

started :
    start sample_ip willing everywhere 0 ready_config (array_table sample_ip) [] false ≡ ok running
unfolding start start_groups new_interface init_routing_table flag is_use_udp
started = refl

started_send_example : Returns (length behind_eight.buff) (
    send direct all_suppressed 5 300 joined 8 11 true
      (reached 167772162 80)
      joined.node_list
      behind_eight)
unfolding extended_from new_interface specified
started_send_example =
    start-send-Returns sample_ip system willing everywhere 0 config ready_config
      (array_table sample_ip) [] false running first joined 300 direct all_suppressed 5 8 11 true
      (reached 167772162 80) joined.node_list behind_eight (λ bytes. refl) accepted started
      (Memᴰ.head refl) (record { mode = refl; has_channel = refl; has_socket = refl; key = refl })
      refl (omega arith) direct-IsPathSearch (omega arith) (omega arith) (omega arith) (omega arith)
      (omega arith) (λ e. ground (arith, e))
