-- ===== src/Server/Beats.antt =====
-- The heartbeat schedule of a group (src/server/mod.rs: `udp_handler`), beside its receiving loop. The
-- order in which a HashMap gives its values is not fixed, so that a pass is told the keys.
pub mod Losing
pub mod Messages
pub mod Silent
use fubuki_test.Base.{ℕ, Bool, true, false, Option, none, some, List, [], ◌∷◌}
use fubuki_test.Ipnet.{IpNet}
use fubuki_test.Protocol.{SocketAddr, UdpMsg}
use fubuki_test.Heartbeat.{UdpStatus, HeartbeatInfo, info_from, round}
use fubuki_test.Protocol.{Node}
use fubuki_test.Server.{NodeHandle, GroupHandle, with_entry}
use fubuki_test.Server.Relay.{receive}

abbrev pub listed : Option (SocketAddr × ℕ) → List (SocketAddr × ℕ) → List (SocketAddr × ℕ)
listed none list = list
listed (some e) list = e ∷ list

module _ {Net : Type 0} where
  -- A node's handle and the entry of `list`; a node without an address is passed over.
  abbrev pub beat_to :
      (packet_loss_limit now : ℕ)
      → NodeHandle Net
      → Option SocketAddr
      → Option (SocketAddr × ℕ) × NodeHandle Net
  beat_to packet_loss_limit now node none = (none, node)
  beat_to packet_loss_limit now node (some socket_addr) =
      let path = round packet_loss_limit now node.udp in
      (some (socket_addr, path.cache.seq), record node { udp = path })

  abbrev pub beat_node :
      (packet_loss_limit now key : ℕ)
      → Option (NodeHandle Net)
      → GroupHandle Net
      → Option (SocketAddr × ℕ) × GroupHandle Net
  beat_node packet_loss_limit now key none group = (none, group)
  beat_node packet_loss_limit now key (some node) group =
      let beat = beat_to packet_loss_limit now node node.node.wan_udp_addr in
      (beat.0, record group { mapping = with_entry key beat.1 group.mapping })

  -- A pass of the schedule over the mapping, with the heartbeats to send.
  unfoldable pub beat :
      (packet_loss_limit now : ℕ) (keys : List ℕ)
      → GroupHandle Net
      → List (SocketAddr × ℕ) × GroupHandle Net
  beat packet_loss_limit now [] group = ([], group)
  beat packet_loss_limit now (key ∷ keys) group =
      let here = beat_node packet_loss_limit now key (group.mapping key) group in
      let rest = beat packet_loss_limit now keys here.1 in (listed here.0 rest.0, rest.1)

-- What happens to the group: a pass of the schedule, or a message that the receiving loop takes.
pub data GroupEvent : Type 0 where
  passes : (now : ℕ) (keys : List ℕ) → GroupEvent
  receives :
      (clock now : ℕ) (allow_udp_relay has_room : Bool) (peer_addr : SocketAddr)
      → UdpMsg
      → GroupEvent

module _ {Net : Type 0} (ip : IpNet Net) (packet_loss_limit packet_continuous_recv : ℕ) where
  unfoldable pub after : GroupEvent → GroupHandle Net → GroupHandle Net
  after (passes now keys) group = (beat packet_loss_limit now keys group).1
  after (receives clock now allow_udp_relay has_room peer_addr msg) group =
      (receive ip packet_continuous_recv clock now allow_udp_relay has_room peer_addr msg group).1

  unfoldable pub after_all : List GroupEvent → GroupHandle Net → GroupHandle Net
  after_all [] group = group
  after_all (e ∷ es) group = after_all es (after e group)
