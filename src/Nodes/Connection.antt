-- ===== src/Nodes/Connection.antt =====
-- The tasks of `tcp_handler` (src/node/mod.rs) while a node is registered: the messages that come
-- from the server, the heartbeat schedule, the upload of the peers' status, and the reset before
-- the next registration. `now` is the monotonic clock.
pub mod Silence
pub mod Upload
use fubuki_test.Base.{
  ℕ, zero, suc, ◌+◌, ◌*◌, ◌/◌, Bool, true, false, ◌&&◌, not, Option, none, some, List, [], ◌∷◌, leb,
  ◌==◌, if◌then◌else◌, length, replicate, Outcome, ok, err, ◌>>=◌, ◌>>◌, check,
}
use fubuki_test.Base.Bytes.{u8, u64}
use fubuki_test.Heartbeat as Heartbeat
use fubuki_test.Heartbeat.{is_available, HeartbeatCache, reply, ping}
use fubuki_test.Protocol.{
  ProtocolError, ProtocolMode, PeerStatus, GroupContent, TcpMsg, node_map, relay, heartbeat,
  fetch_peers_res, req, resp,
}
use fubuki_test.Protocol.Tcp.{heartbeat_encode}
use fubuki_test.Nodes.{ExtendedNode, NodeList, Interface, Peers}
use fubuki_test.Nodes.Merge.{merge}
use fubuki_test.Nodes.Sending.{is_empty}

-- What the node does after a message.
pub data Action : Type 0 where
  quiet : Action
  -- `send_packet` is called on this range of the buffer.
  pass_on : (start stop : ℕ) → Action
  send_back : (packet : List ℕ) → Action

abbrev pub peers_from : List (ℕ × List PeerStatus) → Peers
peers_from [] a = none
peers_from ((addr, peers) ∷ rest) a = if addr == a then some peers else peers_from rest a

abbrev pub replace_peers : List (ℕ × List PeerStatus) → Option Peers → Option Peers
replace_peers peers none = none
replace_peers peers (some old) = some (peers_from peers)

module _ {Net : Type 0} where
  -- What the registration stores of the group, and that the server is connected.
  unfoldable pub join : GroupContent Net → Interface Net → Interface Net
  join group_info inter = record inter {
    group_name = some group_info.name;
    server_allow_udp_relay = group_info.allow_udp_relay;
    server_allow_tcp_relay = group_info.allow_tcp_relay;
    server_is_connected = true;
  }

  unfoldable pub tcp_receive :
      (now nonce : ℕ) → TcpMsg Net → Interface Net → Outcome ProtocolError (Action × Interface Net)
  tcp_receive now nonce (node_map map) inter =
      ok (quiet, record inter { node_list = merge now inter.node_list map })
  tcp_receive now nonce (relay to bytes) inter = ok (pass_on 8 (8 + length bytes), inter)
  tcp_receive now nonce (heartbeat seq req) inter = do
    (len, packet) ← heartbeat_encode inter.key nonce seq resp (replicate 11 0)
    ok (send_back packet, inter)
  tcp_receive now nonce (heartbeat seq resp) inter =
      ok (quiet, record inter { server_tcp_hc = (reply now seq inter.server_tcp_hc).1 })
  tcp_receive now nonce (fetch_peers_res peers) inter =
      ok (quiet, record inter { peers_map = replace_peers peers inter.peers_map })
  tcp_receive now nonce _ inter = ok (quiet, inter)

  -- The end of a connection.
  unfoldable pub reset : Interface Net → Interface Net
  reset inter = record inter {
    server_is_connected = false;
    server_tcp_hc = record inter.server_tcp_hc {
      packet_continuous_loss_count = 0;
      is_send = false;
    };
  }

-- A pass of the heartbeat schedule, up to the heartbeat that it sends: too many losses end it.
unfoldable pub tcp_beat : (limit now : ℕ) → HeartbeatCache → Outcome (Unit {0}) HeartbeatCache
tcp_beat limit now hc =
    let checked = Heartbeat.check hc in
    if leb limit checked.packet_continuous_loss_count then err tt else ok (ping now checked)

-- `specify_mode.get(..).map(|mode| !mode.p2p.is_empty()).unwrap_or(true)`
abbrev pub may_p2p : Option ProtocolMode → Bool
may_p2p none = true
may_p2p (some mode) = not (is_empty mode.p2p)

-- `guard.packet_loss_count * 100 / guard.send_count`, which panics where nothing was sent.
unfoldable pub loss_rate : HeartbeatCache → Outcome (Unit {0}) ℕ
loss_rate hc =
    check (not (hc.send_count == 0)) >> ok (u8 (u64 (hc.packet_loss_count * 100) / hc.send_count))

module _ {Net : Type 0} where
  unfoldable pub peer_status :
      (ℕ → Option ProtocolMode) → ExtendedNode Net → Outcome (Unit {0}) PeerStatus
  peer_status specify_mode node =
      if is_available node.udp_status && may_p2p (specify_mode node.node.virtual_addr)
      then (loss_rate node.hc >>= λ rate. ok (record {
        addr = node.node.virtual_addr;
        latency = node.hc.last_elapsed;
        packet_loss = some rate;
      }))
      else ok (record { addr = node.node.virtual_addr; latency = none; packet_loss = none })

  -- The loop over the list.
  unfoldable pub peers_status :
      (ℕ → Option ProtocolMode) → NodeList Net → Outcome (Unit {0}) (List PeerStatus)
  peers_status specify_mode [] = ok []
  peers_status specify_mode (node ∷ nodes) = do
    peer ← peer_status specify_mode node
    peers ← peers_status specify_mode nodes
    ok (peer ∷ peers)
