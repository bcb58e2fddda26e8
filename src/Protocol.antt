-- ===== src/Protocol.antt =====
-- `mod protocol` of src/common/net.rs: the message types, their constants, and the two framings.
-- `Net` stands for the type `Ipv4Net`, an address for its 32 bits, a duration for its seconds.
pub mod Mode
pub mod Buffer
pub mod Udp
pub mod Tcp
use fubuki_test.Base.{
  ℕ, zero, suc, ◌+◌, ◌*◌, ◌^◌, Bool, true, false, Option, none, some, List, [], ◌∷◌, ◌==◌, ◌||◌,
  if◌then◌else◌, Outcome, ok, err, ◌⊎◌,
}

-- `Ipv4Addr::new(9, 9, 9, 9)`
abbrev pub server_virtual_addr : ℕ
server_virtual_addr = 0x09090909

abbrev pub tcp_buff_size : ℕ
tcp_buff_size = 65535

abbrev pub udp_buff_size : ℕ
udp_buff_size = 65535

abbrev pub magic_num : ℕ
magic_num = 0x99

pub data NetProtocol : Type 0 where
  tcp udp : NetProtocol

-- `ArrayVec<NetProtocol, 2>` as a list.
abbrev pub NetProtocols : Type 0
NetProtocols = List NetProtocol

pub record ProtocolMode : Type 0 where
  pub p2p : NetProtocols
  pub relay : NetProtocols

abbrev pub default_mode : ProtocolMode
default_mode = record { p2p = udp ∷ []; relay = udp ∷ tcp ∷ [] }

abbrev pub same_protocol : NetProtocol → NetProtocol → Bool
same_protocol tcp tcp = true
same_protocol udp udp = true
same_protocol tcp udp = false
same_protocol udp tcp = false

abbrev pub contains : NetProtocols → NetProtocol → Bool
contains [] p = false
contains (q ∷ qs) p = same_protocol q p || contains qs p

unfoldable pub is_use_udp : ProtocolMode → Bool
is_use_udp m = contains m.p2p udp || contains m.relay udp

unfoldable pub is_use_tcp : ProtocolMode → Bool
is_use_tcp m = contains m.p2p tcp || contains m.relay tcp

-- An address and a port.
pub record SocketAddr : Type 0 where
  pub ip : ℕ
  pub port : ℕ

pub record GroupContent (Net : Type 0) : Type 0 where
  pub name : List ℕ
  pub cidr : Net
  pub allow_udp_relay : Bool
  pub allow_tcp_relay : Bool

-- `register_time` is in seconds since the epoch.
pub record Register (Net : Type 0) : Type 0 where
  pub node_name : List ℕ
  pub virtual_addr : ℕ
  pub lan_udp_socket_addr : Option SocketAddr
  pub proto_mod : ProtocolMode
  pub allowed_ips : List Net
  pub register_time : ℕ
  pub nonce : ℕ

pub data AllocateError : Type 0 where
  ip_not_belong_network_range ip_same_as_network_address : AllocateError
  ip_same_as_broadcast_address ip_already_in_use : AllocateError

pub data RegisterError : Type 0 where
  invalid_virtual_address : AllocateError → RegisterError
  timeout nonce_repeat : RegisterError

pub record Node (Net : Type 0) : Type 0 where
  pub name : List ℕ
  pub virtual_addr : ℕ
  pub lan_udp_addr : Option SocketAddr
  pub wan_udp_addr : Option SocketAddr
  pub mode : ProtocolMode
  pub allowed_ips : List Net
  pub register_time : ℕ
  pub register_nonce : ℕ

pub data HeartbeatType : Type 0 where
  req resp : HeartbeatType

abbrev pub type_byte : HeartbeatType → ℕ
type_byte req = 0
type_byte resp = 1

pub record PeerStatus : Type 0 where
  pub addr : ℕ
  pub latency : Option ℕ
  pub packet_loss : Option ℕ

pub data TcpMsg (Net : Type 0) : Type 0 where
  get_idle_virtual_addr : TcpMsg Net
  get_idle_virtual_addr_res : Option (ℕ × Net) → TcpMsg Net
  register : Register Net → TcpMsg Net
  register_res : (RegisterError ⊎ GroupContent Net) → TcpMsg Net
  node_map : List (ℕ × Node Net) → TcpMsg Net
  relay : ℕ → List ℕ → TcpMsg Net
  heartbeat : ℕ → HeartbeatType → TcpMsg Net
  upload_peers : List PeerStatus → TcpMsg Net
  fetch_peers : TcpMsg Net
  fetch_peers_res : List (ℕ × List PeerStatus) → TcpMsg Net

abbrev pub tcp_msg_header_len : ℕ
tcp_msg_header_len = 6

pub data UdpMsg : Type 0 where
  heartbeat : ℕ → ℕ → HeartbeatType → UdpMsg
  payload : List ℕ → UdpMsg
  relay : ℕ → List ℕ → UdpMsg

abbrev pub udp_msg_header_len : ℕ
udp_msg_header_len = 4

-- Why a message is refused.
pub data ProtocolError : Type 0 where
  decode_error magic_miss_match invalid_udp_message invalid_tcp_msg : ProtocolError
  heartbeat_type_not_match bincode_error io_error : ProtocolError

-- `HeartbeatType::try_from`
unfoldable pub heartbeat_type_from : ℕ → Outcome ProtocolError HeartbeatType
heartbeat_type_from value =
    if value == 0 then ok req else if value == 1 then ok resp else err heartbeat_type_not_match
