-- ===== src/Server/Exec.antt =====
-- The messages of a registered node (src/server/mod.rs: `Tunnel::exec`). The node's handle is the one
-- that the mapping has at its address. `clock` is the monotonic clock in nanoseconds, `now` the
-- second that traffic is counted in.
pub mod Peers
use fubuki_test.Base.{
  ℕ, ◌-◌, ◌*◌, Bool, true, false, ◌&&◌, not, Option, none, some, List, [], ◌∷◌, ltb, leb, ◌==◌,
  if◌then◌else◌, replicate, Outcome, ok, err, panic, ◌>>=◌,
}
use fubuki_test.Ipnet.{IpNet}
use fubuki_test.Cipher.{Cipher}
use fubuki_test.Heartbeat as Heartbeat
use fubuki_test.Heartbeat.{HeartbeatCache, reply, ping}
use fubuki_test.Protocol.{
  PeerStatus, ProtocolError, TcpMsg, relay, heartbeat, upload_peers, fetch_peers, req, resp,
}
use fubuki_test.Protocol.Tcp.{heartbeat_encode}
use fubuki_test.Server.{Map, with_entry, NodeHandle, GroupHandle}
use fubuki_test.Server.Relay as Relay
use fubuki_test.Server.Relay.{Sent}

-- What a message makes the tunnel send. The fetched peers are encoded by `fetch_peers_res_encode`
-- (Protocol.Tcp), an error of which ends the tunnel.
pub data Answer : Type 0 where
  no_answer : Answer
  relayed : Sent → Answer
  send_back : (packet : List ℕ) → Answer
  fetched_peers : Map (List PeerStatus) → Answer

-- What ends the tunnel: the heartbeats, an encoder, or a message that does not belong here.
pub data ExecError : Type 0 where
  heartbeat_timeout invalid_tcp_msg : ExecError
  not_encoded : ProtocolError → ExecError

abbrev pub ten_seconds : ℕ
ten_seconds = 10 * 1000000000

abbrev pub is_empty : List PeerStatus → Bool
is_empty [] = true
is_empty (p ∷ ps) = false

-- The status of a node's peers, if it is younger than 10 seconds and not empty.
unfoldable pub fresh : (clock : ℕ) → Option (List PeerStatus × ℕ) → Option (List PeerStatus)
fresh clock none = none
fresh clock (some (peers_status, update_time)) =
    if ltb (clock - update_time) ten_seconds && not (is_empty peers_status)
    then some peers_status
    else none

-- A pass of the heartbeat schedule, up to the heartbeat that it sends.
unfoldable pub exec_beat : (limit clock : ℕ) → HeartbeatCache → Outcome ExecError HeartbeatCache
exec_beat limit clock hc =
    let checked = Heartbeat.check hc in
    if leb limit checked.packet_continuous_loss_count
    then err heartbeat_timeout
    else ok (ping clock checked)

module _ {Net : Type 0} where
  abbrev pub fresh_of : (clock : ℕ) → Option (NodeHandle Net) → Option (List PeerStatus)
  fresh_of clock none = none
  fresh_of clock (some handle) = fresh clock handle.peers_status

  -- The map that a node fetches.
  unfoldable pub fetched : (clock : ℕ) → GroupHandle Net → Map (List PeerStatus)
  fetched clock group addr = fresh_of clock (group.mapping addr)

  abbrev pub change_handle :
      ℕ
      → (NodeHandle Net → NodeHandle Net)
      → Option (NodeHandle Net)
      → GroupHandle Net
      → GroupHandle Net
  change_handle own f none group = group
  change_handle own f (some handle) group = record group {
    mapping = with_entry own (f handle) group.mapping;
  }

  unfoldable pub with_handle :
      ℕ → (NodeHandle Net → NodeHandle Net) → GroupHandle Net → GroupHandle Net
  with_handle own f group = change_handle own f (group.mapping own) group

  abbrev pub sent_back :
      GroupHandle Net
      → Outcome ProtocolError (ℕ × List ℕ)
      → Outcome ExecError (Answer × GroupHandle Net)
  sent_back group (ok (len, packet)) = ok (send_back packet, group)
  sent_back group (err e) = err (not_encoded e)
  sent_back group panic = panic

module _ {Net : Type 0} (ip : IpNet Net) (key : Cipher) (allow_tcp_relay : Bool) where
  unfoldable pub exec_msg :
      (clock now nonce own : ℕ) (has_room : Bool)
      → TcpMsg Net
      → GroupHandle Net
      → Outcome ExecError (Answer × GroupHandle Net)
  exec_msg clock now nonce own has_room (relay dst_virt_addr packet) group =
      let (sent, group') = Relay.relay ip allow_tcp_relay has_room now dst_virt_addr packet group in
      ok (relayed sent, group')
  exec_msg clock now nonce own has_room (heartbeat seq req) group =
      sent_back group (heartbeat_encode key nonce seq resp (replicate 11 0))
  exec_msg clock now nonce own has_room (heartbeat recv_seq resp) group = ok (
    no_answer,
    with_handle own
        (λ h. record h { tcp_heartbeat_cache = (reply clock recv_seq h.tcp_heartbeat_cache).1 })
        group,
  )
  exec_msg clock now nonce own has_room (upload_peers peers) group =
      ok (no_answer, with_handle own (λ h. record h { peers_status = some (peers, clock) }) group)
  exec_msg clock now nonce own has_room fetch_peers group =
      ok (fetched_peers (fetched clock group), group)
  exec_msg clock now nonce own has_room _ group = err invalid_tcp_msg
