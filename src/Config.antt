-- ===== src/Config.antt =====
-- The configuration of a server and of a node (src/lib.rs): the defaults and checks that turn what
-- was read from a file into what the program runs with. What is asked of the system, and the tests
-- on its addresses, are a parameter.
pub mod Server
pub mod Accepted
pub mod Sound
mod Tests
use fubuki_test.Base.{
  ℕ, Bool, true, false, ◌&&◌, ◌||◌, not, Option, none, some, List, [], ◌∷◌, if◌then◌else◌, Outcome,
  ok, err, ok_or, ensure, ◌>>=◌, ◌>>◌,
}
use fubuki_test.Cipher.{CipherEnum, xor, no_op, xor_from}
use fubuki_test.Protocol.{ProtocolMode, default_mode, contains, is_use_udp, tcp, SocketAddr}

pub record System (Net Addr : Type 0) : Type 0 where
  pub is_loopback : Addr → Bool
  pub is_unspecified : Addr → Bool
  pub is_ipv6 : Addr → Bool
  -- The address of a name, `get_interface_addr` of an address, the host's name.
  pub resolve : List ℕ → Option Addr
  pub get_interface_addr : Addr → Option Addr
  pub gethostname : Option (List ℕ)
  -- The device that leads to 1.1.1.1, and whether a network is 0.0.0.0/0.
  pub gateway_device : Option (List ℕ)
  pub is_default_route : Net → Bool
  pub hash : List ℕ → List ℕ

pub data ConfigError : Type 0 where
  only_udp lookup_failed no_interface loopback unspecified no_hostname no_device : ConfigError

abbrev pub localhost : (port : ℕ) → SocketAddr
localhost port = record { ip = 2130706433; port = port }

abbrev pub unwrap_or {ℓ} : {A : Type ℓ} → Option A → A → A
unwrap_or none a = a
unwrap_or (some b) a = b

pub record TargetGroup (Net Addr : Type 0) : Type 0 where
  pub node_name : Option (List ℕ)
  pub server_addr : List ℕ
  pub tun_addr : Option (ℕ × ℕ)
  pub key : Option (List ℕ)
  pub mode : Option ProtocolMode
  pub specify_mode : Option (List (ℕ × ProtocolMode))
  pub lan_ip_addr : Option Addr
  pub node_binding_port : Option ℕ
  pub allowed_ips : Option (List Net)
  pub ips : Option (List (ℕ × List Net))
  pub auto_route_selection : Option Bool

pub record TargetGroupFinalize (Net Addr : Type 0) : Type 0 where
  pub node_name : List ℕ
  pub server_addr : List ℕ
  pub tun_addr : Option (ℕ × ℕ)
  pub key : CipherEnum
  pub mode : ProtocolMode
  pub specify_mode : List (ℕ × ProtocolMode)
  pub lan_ip_addr : Option Addr
  pub node_binding_port : ℕ
  pub allowed_ips : List Net
  pub ips : List (ℕ × List Net)
  pub auto_route_selection : Bool

pub record NodeConfigFeature : Type 0 where
  pub disable_hosts_operation : Option Bool
  pub disable_signal_handling : Option Bool
  pub disable_route_operation : Option Bool
  pub disable_api_server : Option Bool

pub record NodeConfigFeatureFinalize : Type 0 where
  pub disable_hosts_operation : Bool
  pub disable_signal_handling : Bool
  pub disable_route_operation : Bool
  pub disable_api_server : Bool

pub record NodeConfig (Net Addr : Type 0) : Type 0 where
  pub mtu : Option ℕ
  pub channel_limit : Option ℕ
  pub api_addr : Option SocketAddr
  pub tcp_heartbeat_interval_secs : Option ℕ
  pub udp_heartbeat_interval_secs : Option ℕ
  pub tcp_heartbeat_continuous_loss : Option ℕ
  pub udp_heartbeat_continuous_loss : Option ℕ
  pub udp_heartbeat_continuous_recv : Option ℕ
  pub reconnect_interval_secs : Option ℕ
  pub udp_socket_recv_buffer_size : Option ℕ
  pub udp_socket_send_buffer_size : Option ℕ
  pub external_routing_table : Option Bool
  pub allow_packet_forward : Option Bool
  pub allow_packet_not_in_rules_send_to_kernel : Option Bool
  pub enable_hook : Option Bool
  pub socket_bind_device : Option (List ℕ)
  pub cross_nat : Option Bool
  pub groups : List (TargetGroup Net Addr)
  pub features : Option NodeConfigFeature

-- Durations are in seconds.
pub record NodeConfigFinalize (Net Addr : Type 0) : Type 0 where
  pub mtu : ℕ
  pub channel_limit : ℕ
  pub api_addr : SocketAddr
  pub tcp_heartbeat_interval : ℕ
  pub udp_heartbeat_interval : ℕ
  pub tcp_heartbeat_continuous_loss : ℕ
  pub udp_heartbeat_continuous_loss : ℕ
  pub udp_heartbeat_continuous_recv : ℕ
  pub reconnect_interval : ℕ
  pub udp_socket_recv_buffer_size : Option ℕ
  pub udp_socket_send_buffer_size : Option ℕ
  pub external_routing_table : Bool
  pub allow_packet_forward : Bool
  pub allow_packet_not_in_rules_send_to_kernel : Bool
  pub enable_hook : Bool
  pub socket_bind_device : Option (List ℕ)
  pub cross_nat : Bool
  pub groups : List (TargetGroupFinalize Net Addr)
  pub features : NodeConfigFeatureFinalize

-- `use_ipv6`, `use_udp` and `use_gateway`.
pub record Uses : Type 0 where
  pub use_ipv6 : Bool
  pub use_udp : Bool
  pub use_gateway : Bool

abbrev pub both : Uses → Uses → Uses
both a b = record {
  use_ipv6 = a.use_ipv6 || b.use_ipv6;
  use_udp = a.use_udp || b.use_udp;
  use_gateway = a.use_gateway || b.use_gateway;
}

unfoldable pub flag : Option NodeConfigFeature → (NodeConfigFeature → Option Bool) → Bool
flag none field = false
flag (some f) field = unwrap_or (field f) false

abbrev pub features_from : Option NodeConfigFeature → NodeConfigFeatureFinalize
features_from features = record {
  disable_hosts_operation = flag features (λ f. f.disable_hosts_operation);
  disable_signal_handling = flag features (λ f. f.disable_signal_handling);
  disable_route_operation = flag features (λ f. f.disable_route_operation);
  disable_api_server = flag features (λ f. f.disable_api_server);
}

abbrev pub cipher_from : (hash : List ℕ → List ℕ) → Option (List ℕ) → CipherEnum
cipher_from hash none = no_op
cipher_from hash (some k) = xor (xor_from hash k)

unfoldable pub default_mtu : Uses → ℕ
default_mtu uses = if uses.use_udp then (if uses.use_ipv6 then 1424 else 1444) else 1500

module _ {Net Addr : Type 0} (os : System Net Addr) where
  unfoldable pub lan_addr : (server : Addr) → Option Addr → Outcome ConfigError Addr
  lan_addr server none = ok_or (os.get_interface_addr server) no_interface
  lan_addr server (some addr) =
      ensure (not (os.is_loopback addr)) loopback
      >> (ensure (not (os.is_unspecified addr)) unspecified >> ok addr)

  abbrev pub any_default : List Net → Bool
  any_default [] = false
  any_default (n ∷ ns) = os.is_default_route n || any_default ns

  abbrev pub has_gateway : List (ℕ × List Net) → Bool
  has_gateway [] = false
  has_gateway ((a, ns) ∷ rest) = any_default ns || has_gateway rest

  abbrev pub name_for : Option (List ℕ) → Outcome ConfigError (List ℕ)
  name_for none = ok_or os.gethostname no_hostname
  name_for (some v) = ok v

  abbrev pub group_finalize :
      TargetGroup Net Addr
      → ProtocolMode
      → (lan : Addr) (node_name : List ℕ) → TargetGroupFinalize Net Addr
  group_finalize group mode lan node_name = record {
    node_name = node_name;
    server_addr = group.server_addr;
    tun_addr = group.tun_addr;
    key = cipher_from os.hash group.key;
    mode = mode;
    specify_mode = unwrap_or group.specify_mode [];
    lan_ip_addr = if is_use_udp mode then some lan else none;
    node_binding_port = unwrap_or group.node_binding_port 0;
    allowed_ips = unwrap_or group.allowed_ips [];
    ips = unwrap_or group.ips [];
    auto_route_selection = unwrap_or group.auto_route_selection false;
  }

  abbrev pub uses_of : TargetGroup Net Addr → ProtocolMode → (lan : Addr) → Uses
  uses_of group mode lan = record {
    use_ipv6 = is_use_udp mode && os.is_ipv6 lan;
    use_udp = is_use_udp mode;
    use_gateway = has_gateway (unwrap_or group.ips []);
  }

  unfoldable pub finalize_group :
      TargetGroup Net Addr → Outcome ConfigError (TargetGroupFinalize Net Addr × Uses)
  finalize_group group = do
    let mode = unwrap_or group.mode default_mode
    ensure (not (contains mode.p2p tcp)) only_udp
    server ← ok_or (os.resolve group.server_addr) lookup_failed
    lan ← lan_addr server group.lan_ip_addr
    node_name ← name_for group.node_name
    ensure (not (os.is_loopback server)) loopback
    ok (group_finalize group mode lan node_name, uses_of group mode lan)

  unfoldable pub finalize_groups :
      List (TargetGroup Net Addr) → Outcome ConfigError (List (TargetGroupFinalize Net Addr) × Uses)
  finalize_groups [] = ok ([], record { use_ipv6 = false; use_udp = false; use_gateway = false })
  finalize_groups (group ∷ groups) = do
    (one, uses) ← finalize_group group
    (rest, uses') ← finalize_groups groups
    ok (one ∷ rest, both uses uses')

  unfoldable pub bind_device :
      (use_gateway : Bool) → Option (List ℕ) → Outcome ConfigError (Option (List ℕ))
  bind_device use_gateway (some device) = ok (some device)
  bind_device false none = ok none
  bind_device true none = ok_or os.gateway_device no_device >>= λ device. ok (some device)

  abbrev pub config_finalize :
      NodeConfig Net Addr
      → List (TargetGroupFinalize Net Addr)
      → Uses
      → Option (List ℕ)
      → NodeConfigFinalize Net Addr
  config_finalize config groups uses device = record {
    mtu = unwrap_or config.mtu (default_mtu uses);
    channel_limit = unwrap_or config.channel_limit 100;
    api_addr = unwrap_or config.api_addr (localhost 3030);
    tcp_heartbeat_interval = unwrap_or config.tcp_heartbeat_interval_secs 5;
    udp_heartbeat_interval = unwrap_or config.udp_heartbeat_interval_secs 5;
    tcp_heartbeat_continuous_loss = unwrap_or config.tcp_heartbeat_continuous_loss 5;
    udp_heartbeat_continuous_loss = unwrap_or config.udp_heartbeat_continuous_loss 5;
    udp_heartbeat_continuous_recv = unwrap_or config.udp_heartbeat_continuous_recv 3;
    reconnect_interval = unwrap_or config.reconnect_interval_secs 3;
    udp_socket_recv_buffer_size = config.udp_socket_recv_buffer_size;
    udp_socket_send_buffer_size = config.udp_socket_send_buffer_size;
    external_routing_table = unwrap_or config.external_routing_table false;
    allow_packet_forward = unwrap_or config.allow_packet_forward true;
    allow_packet_not_in_rules_send_to_kernel =
        unwrap_or config.allow_packet_not_in_rules_send_to_kernel false;
    enable_hook = unwrap_or config.enable_hook false;
    socket_bind_device = device;
    cross_nat = unwrap_or config.cross_nat false;
    groups = groups;
    features = features_from config.features;
  }

  unfoldable pub try_from : NodeConfig Net Addr → Outcome ConfigError (NodeConfigFinalize Net Addr)
  try_from config = do
    (groups, uses) ← finalize_groups config.groups
    device ← bind_device uses.use_gateway config.socket_bind_device
    ok (config_finalize config groups uses device)
