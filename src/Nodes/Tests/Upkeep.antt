-- ===== src/Nodes/Tests/Upkeep.antt =====
-- Runs of what keeps a node in its group: registration, routes, heartbeats and the upload.
use mathlib.Core.List.{Memᴰ}
use fubuki_test.Base.{
  ◌+◌, ◌≡◌, refl, true, false, inl, inr, none, some, List, [], ◌∷◌, leb, arith, ok,
}
use fubuki_test.Ipnet.Sample.{SampleNet, sample_ip, sample-IsIpNet}
use fubuki_test.Heartbeat as Heartbeat
use fubuki_test.Protocol.{PeerStatus, TcpMsg, register_res, get_idle_virtual_addr_res, default_mode}
use fubuki_test.Routing.{Item, ips_route}
use fubuki_test.Routing.Array.{ArrayRoutingTable}
use fubuki_test.Nodes.{ExtendedNode}
use fubuki_test.Nodes.Connection.{reset, peers_status}
use fubuki_test.Nodes.Connection.Silence.{silent_beats, goes_on, silent_beats-goes_on}
use fubuki_test.Nodes.Connection.Upload.{AreStatusesOf, peers_status-AreStatusesOf}
use fubuki_test.Nodes.Joining.{TargetGroup, auto, register}
use fubuki_test.Nodes.Joining.Settled.{IsSettled, register-IsSettled}
use fubuki_test.Nodes.Ranges.Entries.{IsUpdated, update_tun_addr-IsUpdated}
use fubuki_test.Nodes.Schedule.{node_turn}
use fubuki_test.Nodes.Schedule.Targets.{IsTurn, node_turn-IsTurn}
use fubuki_test.Nodes.Tests.{interface, udp_config, at_port, node_at, reached}

silence_example :
    goes_on (silent_beats 5 6 (λ n. 100 + n) (reset interface).server_tcp_hc) ≡ leb 6 5
silence_example = silent_beats-goes_on interface 5 (λ n. 100 + n) (omega arith) 6

-- Of 4 heartbeats one was lost.
abbrev measured : ExtendedNode SampleNet
measured = record (reached 167772162 80) {
  hc = record (Heartbeat.new 0) { send_count = 4; packet_loss_count = 1; last_elapsed = some 12 };
}

upload_example :
    (peers : List PeerStatus) × (peers_status (λ a. none) (measured ∷ []) ≡ ok peers)
    × AreStatusesOf (λ a. none) (measured ∷ []) peers
unfolding Heartbeat.new
upload_example =
    peers_status-AreStatusesOf (λ a. none) (measured ∷ [])
      (inr (record { has_sent = omega arith; lost = omega arith; fits = omega arith }), tt)

abbrev target : TargetGroup SampleNet
target = record { node_name = 65 ∷ []; mode = default_mode; allowed_ips = [] }

abbrev range : SampleNet
range = record { addr = 167772160; prefix_len = 24 }

abbrev idle_res : TcpMsg SampleNet
idle_res = get_idle_virtual_addr_res (some (167772162, range))

abbrev accepted : TcpMsg SampleNet
accepted =
    register_res
      (inr (record { name = []; cidr = range; allow_udp_relay = true; allow_tcp_relay = true }))

settled_example :
    IsSettled sample_ip
      (auto none)
      (register sample_ip 1000 77 target none (auto none) (some idle_res) (some accepted))
settled_example =
    register-IsSettled sample_ip sample-IsIpNet 1000 77 target none (auto none) (some idle_res)
      (some accepted)

-- Everything through 10.0.0.2.
abbrev gateway_item : Item SampleNet
gateway_item = record {
  cidr = record { addr = 0; prefix_len = 0 };
  gateway = 167772162;
  interface_index = 0;
  extend = record { item_kind = some ips_route };
}

abbrev routes : ArrayRoutingTable SampleNet
routes = gateway_item ∷ []

-- The node moves to 10.0.1.0/24, with 10.9.0.0/16 behind it.
moved_example :
    IsUpdated sample_ip
      (λ call. true)
      (record { addr = 168361984; prefix_len = 16 } ∷ [])
      167772161
      167772417
      range
      (record { addr = 167772416; prefix_len = 24 })
      interface
      routes
      gateway_item
moved_example =
    update_tun_addr-IsUpdated sample_ip (λ call. true)
      (record { addr = 168361984; prefix_len = 16 } ∷ []) 167772161 167772417 range
      (record { addr = 167772416; prefix_len = 24 }) interface routes gateway_item sample-IsIpNet
      refl refl (inl refl) refl refl (Memᴰ.head refl)

-- A node with no path, known at two addresses and a third.
abbrev sought : ExtendedNode SampleNet
sought = record (reached 167772162 80) {
  node = record (node_at 167772162) {
    lan_udp_addr = some (at_port 1);
    wan_udp_addr = some (at_port 2);
  };
  peer_addr = some (at_port 3);
  udp_status = Heartbeat.unavailable;
}

turn_example : IsTurn udp_config (λ a. false) 9 sought (node_turn udp_config (λ a. false) 9 sought)
turn_example = node_turn-IsTurn udp_config (λ a. false) 9 sought
