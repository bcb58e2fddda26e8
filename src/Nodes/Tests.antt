-- ===== src/Nodes/Tests.antt =====
-- Runs of the node's code at a concrete interface.
mod Upkeep
mod Delivery
mod Starting
mod Leaving
mod Handling
mod Routes
use fubuki_test.Base.{
  ℕ, ◌+◌, ◌≡◌, refl, Bool, true, false, none, some, Option, Bool-cases, inl, inr, none-absurd,
  unsome, subst, sym, ap, replicate, if◌then◌else◌, List, [], ◌∷◌, ◌++◌, arith, ok, length,
}
use fubuki_test.Ipnet.Sample.{SampleNet}
use fubuki_test.Cipher.{XorCipher, xor, cipher_enum}
use fubuki_test.Cipher.Laws.{at, IsCipher, cipher_enum-IsCipher}
use fubuki_test.Heartbeat as Heartbeat
use fubuki_test.Heartbeat.{available, unavailable, HeartbeatCache}
use fubuki_test.Protocol.{Node, default_mode, SocketAddr}
use fubuki_test.Routing.{virtual_range}
use fubuki_test.Routing.Array.{ArrayRoutingTable}
use fubuki_test.Nodes.{ExtendedNode, extended_from, get_node, Interface, Peers}
use fubuki_test.Nodes.Merge.{merge, merge-get_node, IsSorted, extended, entry}
use fubuki_test.Nodes.NextHop.{Dijkstra, NextHop, find_next_hop, Cache}
use fubuki_test.Nodes.NextHop.Recent.{
  last_of, IsPathSearch, empty, IsRecent, find_next_hop-IsRecent,
}
use fubuki_test.Nodes.Sending.{Outside, delivered, Sending, send, datagram}
use fubuki_test.Nodes.Sending.Delivery.{data_packet, Decodes, send-IsRead}
use fubuki_test.Nodes.Sending.Twice.{send_all-enciphers_twice}
use fubuki_test.Nodes.Packets.{send_all}
use fubuki_test.Nodes.Receiving.{UdpConfig, receive, pass_on, response}
use fubuki_test.Nodes.Receiving.Trust.{KeepsServer, KeepsEntry, response-IsTrusted}
use fubuki_test.Nodes.Receiving.Overlong.{receive-overlong}

abbrev node_at : ℕ → Node SampleNet
node_at a = record {
  name = [];
  virtual_addr = a;
  lan_udp_addr = none;
  wan_udp_addr = none;
  mode = default_mode;
  allowed_ips = [];
  register_time = 0;
  register_nonce = 0;
}

abbrev at_port : ℕ → SocketAddr
at_port p = record { ip = 16843009; port = p }

-- A node that is reached at 1.1.1.1.
abbrev reached : (addr port : ℕ) → ExtendedNode SampleNet
reached addr port = record (extended_from 0 (node_at addr)) {
  udp_status = available (at_port port);
}

abbrev known : List (ExtendedNode SampleNet)
known = reached 167772162 80 ∷ []

abbrev node_map : List (ℕ × Node SampleNet)
node_map = (167772162, node_at 167772162) ∷ (167772161, node_at 167772161) ∷ []

-- The list knew 10.0.0.2 and its path; the map has it again, and 10.0.0.1.
merge_example :
    IsSorted (merge 7 known node_map)
    × (get_node 167772162 (merge 7 known node_map)
        ≡ extended 7 known 167772162 (entry 167772162 node_map))
merge_example = merge-get_node 7 known node_map 167772162 (refl, (refl, tt), (refl, tt, tt))

-- A search that finds the goals among the start's successors.
abbrev first_goal : (start : ℕ) (success : ℕ → Bool) → List (ℕ × ℕ) → Option (List ℕ × ℕ)
first_goal start success [] = none
first_goal start success ((n, cost) ∷ rest) =
    let later = first_goal start success rest in
    if success n then some (start ∷ n ∷ [], cost) else later

abbrev direct : Dijkstra
direct start successors success = first_goal start success (successors start)

first_goal-leads :
    (start : ℕ) (success : ℕ → Bool) (l : List (ℕ × ℕ)) (path : List ℕ) (cost : ℕ)
    → first_goal start success l ≡ some (path, cost)
    → (rest : List ℕ) × (path ≡ start ∷ rest) × (success (last_of start rest) ≡ true)
first_goal-leads start success [] path cost h = none-absurd h
first_goal-leads start success ((n, c) ∷ l) path cost h = elim (Bool-cases (success n)) [
  | inl yields ↦
      let found : some (start ∷ n ∷ [], c) ≡ some (path, cost) =
        subst
          (λ b.
            (if b then some (start ∷ n ∷ [], c) else first_goal start success l)
            ≡ some (path, cost))
          yields h in
      (n ∷ [], sym (ap (λ p. p.0) (unsome found)), yields)
  | inr fails ↦ first_goal-leads start success l path cost (
      subst
        (λ b.
          (if b then some (start ∷ n ∷ [], c) else first_goal start success l) ≡ some (path, cost))
        fails h)
]

direct-IsPathSearch : IsPathSearch direct
direct-IsPathSearch = record {
  leads = λ start successors success path cost h.
      first_goal-leads start success (successors start) path cost h;
}

-- 10.0.0.1 measured 10.0.0.2, with a packet lost in 100.
abbrev peers_at : ℕ → Peers
peers_at t a = some (record { addr = 167772162; latency = some 5000000; packet_loss = some 1 } ∷ [])

hop_example :
    (hop : Option NextHop) × (cache' : Cache) × (find_next_hop direct 90 167772161 167772162
        (peers_at 90)
        []
      ≡ ok (hop, cache'))
    × IsRecent direct 167772161 167772162 peers_at 90 hop
hop_example =
    find_next_hop-IsRecent direct direct-IsPathSearch 167772161 peers_at 167772162 70 90 []
      (λ e. ground (arith, e)) (omega arith) (empty 70)

abbrev sample_key : XorCipher
sample_key = record { basekey = 7 ∷ 200 ∷ 31 ∷ replicate 29 0xa5 }

abbrev interface : Interface SampleNet
interface = record {
  index = 0;
  node_name = 65 ∷ [];
  group_name = none;
  addr = 167772161;
  cidr = record { addr = 167772160; prefix_len = 24 };
  mode = default_mode;
  specify_mode = λ a. none;
  node_list = reached 167772162 80 ∷ reached 167772163 81 ∷ [];
  server_addr = 83 ∷ [];
  server_udp_hc = Heartbeat.new 0;
  server_udp_status = unavailable;
  server_tcp_hc = Heartbeat.new 0;
  server_is_connected = true;
  server_allow_udp_relay = true;
  server_allow_tcp_relay = true;
  has_channel = true;
  has_socket = true;
  key = cipher_enum (xor sample_key);
  peers_map = none;
}

interface-IsCipher : IsCipher interface.key
interface-IsCipher = cipher_enum-IsCipher (xor sample_key) refl

-- 10.0.0.0/24 on the link.
abbrev link_table : ArrayRoutingTable SampleNet
link_table =
    record {
      cidr = record { addr = 167772160; prefix_len = 24 };
      gateway = 0;
      interface_index = 0;
      extend = record { item_kind = some virtual_range };
    }
    ∷ []

abbrev udp_config : UdpConfig
udp_config = record {
  udp_heartbeat_continuous_loss = 5;
  udp_heartbeat_continuous_recv = 3;
  has_bind_device = false;
}

trusted_example :
    let after = response udp_config (λ a. true) (λ a. false) 9 167772162 (at_port 90) 0 interface in
    KeepsServer udp_config (λ a. true) (λ a. false) 9 (at_port 90) 167772162 0 interface after
    × KeepsEntry udp_config
        (λ a. true)
        (λ a. false)
        9
        (at_port 90)
        167772162
        0
        167772162
        (get_node 167772162 interface.node_list)
        (get_node 167772162 after.node_list)
trusted_example =
    response-IsTrusted udp_config (λ a. true) (λ a. false) 9 (at_port 90) 167772162 0 interface
      167772162

abbrev overlong : List ℕ
overlong = 69 ∷ 70 ∷ 1 ∷ 2 ∷ 3 ∷ 4 ∷ []

overlong_example :
    (front : List ℕ) × (length front ≡ 8)
    × (receive udp_config
          (λ a. true)
          (λ a. false)
          9
          7
          6
          (at_port 90)
          (0
            ∷ 0
            ∷ 0
            ∷ 0
            ∷ (data_packet interface.key 300 (69 ∷ 70 ∷ []) ++ (1 ∷ 2 ∷ 3 ∷ 4 ∷ 5 ∷ [])))
          interface
        ≡ ok (pass_on 8 14 (front ++ (overlong ++ (5 ∷ []))), interface))
    × (length overlong ≡ 6)
overlong_example =
    receive-overlong udp_config (λ a. true) (λ a. false) 9 7 interface (at_port 90) 300 6
      (0 ∷ 0 ∷ 0 ∷ 0 ∷ []) (69 ∷ 70 ∷ []) (1 ∷ 2 ∷ 3 ∷ 4 ∷ []) (5 ∷ []) interface-IsCipher
      (omega arith) refl refl refl
