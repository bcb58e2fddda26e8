-- ===== src/Nodes/Schedule.antt =====
-- The heartbeat schedule of `udp_handler` (src/node/mod.rs): in every pass the server gets a
-- heartbeat, and so does every node with which packets may be exchanged directly, at the addresses
-- where it may be found. A send that fails for good ends the schedule; the others do not change what
-- follows, so the pass is what it sends where none fails for good.
pub mod Targets
use fubuki_test.Base.{
  ℕ, Bool, true, false, ◌&&◌, ◌||◌, not, Option, none, some, List, [], ◌∷◌, ◌++◌, leb,
  if◌then◌else◌,
}
use fubuki_test.Heartbeat as Heartbeat
use fubuki_test.Heartbeat.{UdpStatus, available, unavailable, is_available, HeartbeatCache, ping}
use fubuki_test.Protocol.{SocketAddr, contains, udp}
use fubuki_test.Nodes.{ExtendedNode, NodeList, Interface}
use fubuki_test.Nodes.Receiving.{UdpConfig, same_addr, is_p2p}

-- A heartbeat request with this sequence number, to an address.
pub record Beat : Type 0 where
  pub to : SocketAddr
  pub seq : ℕ

-- `through` is `through_virtual_gateway` from the interface's address in its network.
module _ (config : UdpConfig) (through : SocketAddr → Bool) (now : ℕ) where
  -- `send!`
  abbrev pub send_to : SocketAddr → List SocketAddr
  send_to addr = if config.has_bind_device || not (through addr) then addr ∷ [] else []

  abbrev pub other_addr : (lan wan : SocketAddr) → Option SocketAddr → List SocketAddr
  other_addr lan wan none = []
  other_addr lan wan (some addr) =
      if not (same_addr addr lan) && not (same_addr addr wan) then send_to addr else []

  -- The addresses at which a node with no path is looked for.
  unfoldable pub search_addrs :
      (lan wan : SocketAddr) (peer_addr : Option SocketAddr) → List SocketAddr
  search_addrs lan wan peer_addr =
      other_addr lan wan peer_addr
      ++ (if same_addr wan lan then send_to wan else send_to lan ++ send_to wan)

  abbrev pub targets :
      (is_over : Bool) (lan wan : SocketAddr) (peer_addr : Option SocketAddr)
      → UdpStatus SocketAddr
      → List SocketAddr
  targets is_over lan wan peer_addr (available dst_addr) =
      if not is_over then dst_addr ∷ [] else search_addrs lan wan peer_addr
  targets is_over lan wan peer_addr unavailable = search_addrs lan wan peer_addr

  abbrev pub beats_to : (seq : ℕ) → List SocketAddr → List Beat
  beats_to seq [] = []
  beats_to seq (to ∷ tos) = record { to = to; seq = seq } ∷ beats_to seq tos

  abbrev pub is_over : HeartbeatCache → Bool
  is_over hc = leb config.udp_heartbeat_continuous_loss hc.packet_continuous_loss_count

  -- `if is_over && udp_status != Unavailable { store(Unavailable) }`
  abbrev pub judged : HeartbeatCache → UdpStatus SocketAddr → UdpStatus SocketAddr
  judged checked status = if is_over checked && is_available status then unavailable else status

  -- A node's turn once its cache is checked; with either of its addresses unknown it is not sent
  -- anything.
  abbrev pub turn :
      {Net : Type 0}
      → (checked : HeartbeatCache) → ExtendedNode Net
      → (lan wan : Option SocketAddr) → ExtendedNode Net × List Beat
  turn checked node (some lan) (some wan) =
      let pinged = ping now checked in
      (
        record node { udp_status = judged checked node.udp_status; hc = pinged },
        beats_to pinged.seq (targets (is_over checked) lan wan node.peer_addr node.udp_status),
      )
  turn checked node none wan =
      (record node { udp_status = judged checked node.udp_status; hc = checked }, [])
  turn checked node (some lan) none =
      (record node { udp_status = judged checked node.udp_status; hc = checked }, [])

  unfoldable pub node_turn : {Net : Type 0} → ExtendedNode Net → ExtendedNode Net × List Beat
  node_turn node =
      if contains node.node.mode.p2p udp
      then turn (Heartbeat.check node.hc) node node.node.lan_udp_addr node.node.wan_udp_addr
      else (node, [])

  unfoldable pub nodes_turn : {Net : Type 0} → NodeList Net → NodeList Net × List Beat
  nodes_turn [] = ([], [])
  nodes_turn (node ∷ nodes) =
      let one = node_turn node in let rest = nodes_turn nodes in (one.0 ∷ rest.0, one.1 ++ rest.1)

  -- The sequence number for the server, the interface, and the heartbeats to nodes.
  unfoldable pub pass : {Net : Type 0} → Interface Net → Option ℕ × Interface Net × List Beat
  pass inter =
      if inter.server_is_connected
      then (let checked = Heartbeat.check inter.server_udp_hc in
          let pinged = ping now checked in
          let nodes = if is_p2p inter then nodes_turn inter.node_list else (inter.node_list, []) in
          (
            some pinged.seq,
            record inter {
              server_udp_hc = pinged;
              server_udp_status = judged checked inter.server_udp_status;
              node_list = nodes.0;
            },
            nodes.1,
          ))
      else (none, inter, [])
