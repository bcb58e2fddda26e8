-- ===== src/Server/Tests.antt =====
-- Runs of the server's code at a concrete group.
mod Silence
use fubuki_test.Base.{
  ◌<◌, ◌≡◌, ◌↔◌, refl, true, false, none, some, [], ◌∷◌, ok, err, ◌==◌, List, ltb, ◌-◌, ◌&&◌, not,
  if◌then◌else◌,
}
use fubuki_test.Ipnet.Sample.{SampleNet, sample_ip, sample-IsIpNet, network, broadcast}
use fubuki_test.Protocol.{
  PeerStatus, TcpMsg, upload_peers, Register, GroupContent, UdpMsg, req, ip_same_as_network_address,
  default_mode,
}
use fubuki_test.Cipher.{no_op_cipher}
use fubuki_test.Heartbeat as Heartbeat
use fubuki_test.Heartbeat.{unavailable}
use fubuki_test.Server.{NodeHandle, GroupHandle, with_key, with_entry}
use fubuki_test.Server.Exec.{fetched, ten_seconds, is_empty}
use fubuki_test.Server.Exec.Peers.{after_msg, at_once, by_tcp, fetched-uploaded}
use fubuki_test.Server.Pool.{AddressPool, get_idle_addr, first_idle, allocate, allocate_iff}
use fubuki_test.Server.Register.{
  Session, IsRegistered, register, register-replayed, register-registers, in_window, fails,
  registers, noted, admit,
}
use fubuki_test.Server.Lifecycle.{
  Group, allocated, allocates, goes_on, accepts, Reached, start, turned, IsConsistent,
  Reached-IsConsistent,
}
use fubuki_test.Server.Relay.{
  relay, relay-IsRelayed, IsRelayed, receive, receive-IsWatched, IsWatched,
}

-- 10.0.0.0/24, with 10.0.0.1 in use.
abbrev range : SampleNet
range = record { addr = 167772160; prefix_len = 24 }

abbrev pool : AddressPool SampleNet
pool = record { used = λ a. a == 167772161; cidr = range }

allocate_example : (allocate sample_ip 167772162 pool ≡ ok pool) ↔ (
    (network range < 167772162)
    × (167772162 < broadcast range)
    × (pool.used 167772162 ≡ false)
    × (record pool { used = with_key 167772162 pool.used } ≡ pool))
allocate_example = allocate_iff sample_ip sample-IsIpNet pool pool 167772162

-- Of 10.0.0.0/31 the first idle address is the network address, which `allocate` refuses.
abbrev point_to_point : AddressPool SampleNet
point_to_point = record { used = λ a. false; cidr = record { addr = 167772160; prefix_len = 31 } }

point_to_point_offer : get_idle_addr sample_ip point_to_point ≡ some 167772160
unfolding get_idle_addr first_idle
point_to_point_offer = refl

point_to_point_refusal :
    allocate sample_ip 167772160 point_to_point ≡ err ip_same_as_network_address
unfolding allocate
point_to_point_refusal = refl

abbrev empty_group : GroupHandle SampleNet
empty_group = record {
  name = [];
  address_range = range;
  mapping = λ a. none;
  watch = λ a. none;
  flow_control = record { rule = []; pool = [] };
}

abbrev message : Register SampleNet
message = record {
  node_name = 65 ∷ [];
  virtual_addr = 167772162;
  lan_udp_socket_addr = none;
  proto_mod = default_mode;
  allowed_ips = [];
  register_time = 1000;
  nonce = 77;
}

abbrev session : Session SampleNet
session = record { nonces = λ n. false; pool = pool; handle = empty_group }

abbrev content : GroupContent SampleNet
content = record { name = []; cidr = range; allow_udp_relay = true; allow_tcp_relay = true }

register_run : (register sample_ip 5 1300 content message session).end ≡ registers
unfolding register in_window allocate
register_run = refl

registers_example :
    (in_window 1300 1000 ≡ true)
    × (false ≡ false)
    × ((next : AddressPool SampleNet) × (allocate sample_ip 167772162 pool ≡ ok next)
        × IsRegistered sample_ip 5 content message session next
            (register sample_ip 5 1300 content message session))
registers_example = register-registers sample_ip 5 1300 content message session register_run

replayed_example :
    (register sample_ip 9 1250 content message (noted sample_ip message session)).end ≡ fails
unfolding in_window
replayed_example =
    register-replayed sample_ip 9 750 1250 content message (noted sample_ip message session) refl
      (λ h. refl)

abbrev group : Group SampleNet
group = record { handle = empty_group; pool = record { used = λ a. false; cidr = range } }

abbrev group_allocated : Group SampleNet
group_allocated = record group {
  pool = record { used = with_key 167772162 (λ a. false); cidr = range };
}

first_allocation : allocate sample_ip 167772162 group.pool ≡ ok group_allocated.pool
unfolding allocate
first_allocation = refl

one_allocated : Reached sample_ip sample-IsIpNet group_allocated (allocated 167772162 ∷ [])
one_allocated =
    turned (turned (start (λ a. refl) (λ a. refl) (λ a. refl)) accepts)
      (goes_on [] [] (allocates 167772162 first_allocation))

lifecycle_example : IsConsistent group_allocated (allocated 167772162 ∷ [])
lifecycle_example =
    Reached-IsConsistent sample_ip sample-IsIpNet group_allocated (allocated 167772162 ∷ [])
      one_allocated

relay_example : IsRelayed empty_group 5 (relay sample_ip true true 9 5 (1 ∷ []) empty_group).0
relay_example = relay-IsRelayed sample_ip true true 9 5 (1 ∷ []) empty_group

abbrev uploader : NodeHandle SampleNet
uploader = record {
  node = record {
    name = 65 ∷ [];
    virtual_addr = 167772162;
    lan_udp_addr = none;
    wan_udp_addr = none;
    mode = default_mode;
    allowed_ips = [];
    register_time = 1000;
    register_nonce = 77;
  };
  udp = record { status = unavailable; cache = Heartbeat.new 0 };
  tcp_heartbeat_cache = Heartbeat.new 0;
  peers_status = none;
}

abbrev uploader_group : GroupHandle SampleNet
uploader_group = record empty_group { mapping = with_entry 167772162 uploader empty_group.mapping }

abbrev some_peers : List PeerStatus
some_peers = record { addr = 167772163; latency = some 5; packet_loss = some 1 } ∷ []

-- Another node sends a heartbeat between the upload and the fetch.
abbrev group_later : GroupHandle SampleNet
group_later =
    after_msg sample_ip no_op_cipher true 167772162 150 0 5 167772161 true (TcpMsg.heartbeat 3 req)
      (after_msg sample_ip no_op_cipher true 167772162 100 0 5 167772162 true
        (upload_peers some_peers) uploader_group)

fetched_example :
    fetched 200 group_later 167772162
    ≡ (if ltb (200 - 100) ten_seconds && not (is_empty some_peers) then some some_peers else none)
fetched_example =
    fetched-uploaded sample_ip no_op_cipher true 167772162 100 0 5 true some_peers uploader
      uploader_group group_later 200 refl
      (by_tcp 150 0 5 167772161 true (TcpMsg.heartbeat 3 req) (λ e. refl) at_once)
