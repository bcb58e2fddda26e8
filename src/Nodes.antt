-- ===== src/Nodes.antt =====
-- The state of a node (src/node/mod.rs): `Interface`, the state of one group, and the list of the
-- nodes that the server sent.
pub mod Merge
pub mod NextHop
pub mod Sending
pub mod Packets
pub mod Receiving
pub mod Connection
pub mod Joining
pub mod Schedule
pub mod Ranges
pub mod Start
pub mod NativeNat
pub mod SysRoute
pub mod CrossNat
mod Tests
use fubuki_test.Base.{
  ℕ, Bool, true, false, Option, none, some, List, [], ◌∷◌, ltb, ◌==◌, if◌then◌else◌,
}
use fubuki_test.Cipher.{Cipher}
use fubuki_test.Heartbeat as Heartbeat
use fubuki_test.Heartbeat.{UdpStatus, unavailable, HeartbeatCache, HeartbeatInfo, info_from}
use fubuki_test.Protocol.{Node, ProtocolMode, PeerStatus, SocketAddr}

pub record ExtendedNode (Net : Type 0) : Type 0 where
  pub node : Node Net
  pub udp_status : UdpStatus SocketAddr
  pub hc : HeartbeatCache
  pub peer_addr : Option SocketAddr

-- `ExtendedNode::from(node)`
unfoldable pub extended_from : {Net : Type 0} → (now : ℕ) → Node Net → ExtendedNode Net
extended_from now node = record {
  node = node;
  udp_status = unavailable;
  hc = Heartbeat.new now;
  peer_addr = none;
}

abbrev pub NodeList : Type 0 → Type 0
NodeList Net = List (ExtendedNode Net)

-- `binary_search_by_key` in a list that is sorted by address.
unfoldable pub get_node : {Net : Type 0} → ℕ → NodeList Net → Option (ExtendedNode Net)
get_node addr [] = none
get_node addr (n ∷ ns) =
    if ltb n.node.virtual_addr addr
    then get_node addr ns
    else (if n.node.virtual_addr == addr then some n else none)

-- The map of each node's peers.
abbrev pub Peers : Type 0
Peers = ℕ → Option (List PeerStatus)

pub record Interface (Net : Type 0) : Type 0 where
  pub index : ℕ
  pub node_name : List ℕ
  pub group_name : Option (List ℕ)
  pub addr : ℕ
  pub cidr : Net
  pub mode : ProtocolMode
  pub specify_mode : ℕ → Option ProtocolMode
  pub node_list : NodeList Net
  pub server_addr : List ℕ
  pub server_udp_hc : HeartbeatCache
  pub server_udp_status : UdpStatus SocketAddr
  pub server_tcp_hc : HeartbeatCache
  pub server_is_connected : Bool
  pub server_allow_udp_relay : Bool
  pub server_allow_tcp_relay : Bool
  -- Whether `tcp_handler_channel` and `udp_socket` are there.
  pub has_channel : Bool
  pub has_socket : Bool
  pub key : Cipher
  pub peers_map : Option Peers

pub record ExtendedNodeInfo (Net : Type 0) : Type 0 where
  pub node : Node Net
  pub udp_status : UdpStatus SocketAddr
  pub hc : HeartbeatInfo

unfoldable pub node_info_from : {Net : Type 0} → ExtendedNode Net → ExtendedNodeInfo Net
node_info_from value = record {
  node = value.node;
  udp_status = value.udp_status;
  hc = info_from value.hc;
}

pub record InterfaceInfo (Net : Type 0) : Type 0 where
  pub index : ℕ
  pub node_name : List ℕ
  pub group_name : Option (List ℕ)
  pub addr : ℕ
  pub cidr : Net
  pub mode : ProtocolMode
  pub node_map : List (ℕ × ExtendedNodeInfo Net)
  pub server_addr : List ℕ
  pub server_udp_hc : HeartbeatInfo
  pub server_udp_status : UdpStatus SocketAddr
  pub server_tcp_hc : HeartbeatInfo
  pub server_is_connected : Bool

abbrev pub node_infos : {Net : Type 0} → NodeList Net → List (ℕ × ExtendedNodeInfo Net)
node_infos [] = []
node_infos (node ∷ nodes) = (node.node.virtual_addr, node_info_from node) ∷ node_infos nodes

unfoldable pub interface_info_from : {Net : Type 0} → Interface Net → InterfaceInfo Net
interface_info_from value = record {
  index = value.index;
  node_name = value.node_name;
  group_name = value.group_name;
  addr = value.addr;
  cidr = value.cidr;
  mode = value.mode;
  node_map = node_infos value.node_list;
  server_addr = value.server_addr;
  server_udp_hc = info_from value.server_udp_hc;
  server_udp_status = value.server_udp_status;
  server_tcp_hc = info_from value.server_tcp_hc;
  server_is_connected = value.server_is_connected;
}
