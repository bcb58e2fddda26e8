-- ===== src/Server/Info.antt =====
-- A group as it is made, and as it is told to the HTTP interface (src/server/mod.rs: `GroupHandle`,
-- `NodeInfo`, `GroupInfo`).
use fubuki_test.Base.{ℕ, Option, none, some, List}
use fubuki_test.Protocol.{Node, SocketAddr}
use fubuki_test.Heartbeat.{UdpStatus, HeartbeatInfo, info_from}
use fubuki_test.Ipnet.{IpNet}
use fubuki_test.Flow as Flow
use fubuki_test.Server.{Map, NodeHandle, GroupHandle}

pub record NodeInfo (Net : Type 0) : Type 0 where
  pub node : Node Net
  pub udp_status : UdpStatus SocketAddr
  pub udp_heartbeat_cache : HeartbeatInfo
  pub tcp_heartbeat_cache : HeartbeatInfo

pub record GroupInfo (Net : Type 0) : Type 0 where
  pub name : List ℕ
  pub listen_addr : SocketAddr
  pub address_range : Net
  pub node_map : Map (NodeInfo Net)

module _ {Net : Type 0} where
  -- `GroupHandle::new(..)`
  unfoldable pub new_group :
      IpNet Net
      → (sort : List (Net × ℕ) → List (Net × ℕ)) → (name : List ℕ) (address_range : Net)
      → List (Net × ℕ)
      → GroupHandle Net
  new_group ip sort name address_range rules = record {
    name = name;
    address_range = address_range;
    mapping = λ a. none;
    watch = λ a. none;
    flow_control = Flow.new ip sort rules;
  }

  -- `NodeInfo::from(handle)`
  unfoldable pub node_info_from : NodeHandle Net → NodeInfo Net
  node_info_from value = record {
    node = value.node;
    udp_status = value.udp.status;
    udp_heartbeat_cache = info_from value.udp.cache;
    tcp_heartbeat_cache = info_from value.tcp_heartbeat_cache;
  }

  abbrev pub info_of : Option (NodeHandle Net) → Option (NodeInfo Net)
  info_of none = none
  info_of (some v) = some (node_info_from v)

  -- `GroupInfo::from(handle)`; the address that the group listens on stands for itself.
  unfoldable pub group_info_from : (listen_addr : SocketAddr) → GroupHandle Net → GroupInfo Net
  group_info_from listen_addr value = record {
    name = value.name;
    listen_addr = listen_addr;
    address_range = value.address_range;
    node_map = λ a. info_of (value.mapping a);
  }
