-- ===== src/Server/Exec/Peers.antt =====
-- How long the server gives out what a node uploaded (src/server/mod.rs: `Tunnel::exec`).
mod Kept
use fubuki_test.Base.{
  ℕ, ◌≡◌, refl, sym, ap, ◌∙◌, Bool, true, false, Bool-cases, inl, inr, Option, none, some, List,
  ◌==◌, if◌then◌else◌, arith, Outcome, ok, err, panic, length, ltb, ◌-◌, ◌&&◌, not, unsome,
  none-absurd,
}
use fubuki_test.Ipnet.{IpNet}
use fubuki_test.Cipher.{Cipher}
use fubuki_test.Flow.{FlowControl, PushResult, accept, reject, push}
use fubuki_test.Protocol.{
  PeerStatus, ProtocolError, SocketAddr, TcpMsg, UdpMsg, relay, heartbeat, upload_peers,
  fetch_peers, req, resp,
}
use fubuki_test.Server.{with_entry, NodeHandle, GroupHandle, sync}
use fubuki_test.Server.Relay as Relay
use fubuki_test.Server.Relay.{receive}
use fubuki_test.Server.Exec.{
  ten_seconds, is_empty, Answer, ExecError, fresh, fresh_of, fetched, change_handle, with_handle,
  sent_back, exec_msg,
}
use fubuki_test.Server.Exec.Peers.Kept.{
  status_of, HasPeers, entry-HasPeers, kept_status, changed-HasPeers, with_handle-HasPeers,
  uploaded-HasPeers, HasPeers-fetched, pushed-HasPeers, relay-HasPeers, learn-HasPeers,
  request-HasPeers, response-HasPeers, receive-HasPeers,
}

abbrev pub is_upload : {Net : Type 0} → TcpMsg Net → Bool
is_upload (upload_peers peers) = true
is_upload _ = false

-- The group after a message, which an error does not change.
abbrev pub left_by :
    {Net : Type 0}
    → GroupHandle Net
    → Outcome ExecError (Answer × GroupHandle Net)
    → GroupHandle Net
left_by group (ok r) = r.1
left_by group (err e) = group
left_by group panic = group

module _ {Net : Type 0} (ip : IpNet Net) (key : Cipher) (allow : Bool) (a : ℕ) where
  abbrev pub after_msg :
      (clock now nonce own : ℕ) (has_room : Bool) → TcpMsg Net → GroupHandle Net → GroupHandle Net
  after_msg clock now nonce own has_room msg group =
      left_by group (exec_msg ip key allow clock now nonce own has_room msg group)

  -- The group after any messages, over TCP and UDP, but uploads of this node.
  pub data Later (group : GroupHandle Net) : GroupHandle Net → Type 0 where
    at_once : Later group group
    by_tcp :
        {g : GroupHandle Net} (clock now nonce own : ℕ) (has_room : Bool) (msg : TcpMsg Net)
        → (own ≡ a → is_upload msg ≡ false)
        → Later group g
        → Later group (after_msg clock now nonce own has_room msg g)
    by_udp :
        {g : GroupHandle Net} (recv clock now : ℕ) (allow_udp_relay has_room : Bool)
        (peer_addr : SocketAddr) (msg : UdpMsg)
        → Later group g
        → Later group (receive ip recv clock now allow_udp_relay has_room peer_addr msg g).1

  sent_back-left_by :
      (g : GroupHandle Net) (o : Outcome ProtocolError (ℕ × List ℕ)) → left_by g (sent_back g o) ≡ g
  sent_back-left_by g (ok (len, packet)) = refl
  sent_back-left_by g (err e) = refl
  sent_back-left_by g panic = refl

  after_msg-HasPeers :
      (v : Option (List PeerStatus × ℕ)) (clock now nonce own : ℕ) (has_room : Bool)
      (msg : TcpMsg Net) (g : GroupHandle Net)
      → (own ≡ a → is_upload msg ≡ false)
      → HasPeers a v g
      → HasPeers a v (after_msg clock now nonce own has_room msg g)
  unfolding exec_msg
  after_msg-HasPeers v clock now nonce own has_room (relay dst packet) g n m =
      relay-HasPeers ip a v allow has_room now dst packet g m
  after_msg-HasPeers v clock now nonce own has_room (heartbeat seq req) g n m =
      rw (sent_back-left_by g _) m
  after_msg-HasPeers v clock now nonce own has_room (heartbeat seq resp) g n m =
      with_handle-HasPeers a own v _ g (λ h same p. p) m
  after_msg-HasPeers v clock now nonce own has_room (upload_peers peers) g n m =
      with_handle-HasPeers a own v _ g (λ h same p. absurd (ground (arith, n same))) m
  after_msg-HasPeers v clock now nonce own has_room fetch_peers g n m = m
  after_msg-HasPeers v clock now nonce own has_room _ g n m = m

  Later-HasPeers :
      (v : Option (List PeerStatus × ℕ)) (g g' : GroupHandle Net)
      → HasPeers a v g
      → Later g g'
      → HasPeers a v g'
  Later-HasPeers v g _ m at_once = m
  Later-HasPeers v g _ m (by_tcp {g = g'} clock now nonce own has_room msg n l) =
      after_msg-HasPeers v clock now nonce own has_room msg g' n (Later-HasPeers v g g' m l)
  Later-HasPeers v g _ m (by_udp {g = g'} recv clock now allow_udp_relay has_room peer_addr msg l) =
      receive-HasPeers ip a v recv clock now allow_udp_relay has_room peer_addr msg g'
        (Later-HasPeers v g g' m l)

  -- What a node of the group uploads of its peers is, whatever messages follow but its own uploads,
  -- what any node fetches of it for the next 10 seconds, if it is not empty, and nothing is fetched
  -- of it from then on.
  pub fetched-uploaded :
      (clock now nonce : ℕ) (has_room : Bool) (peers : List PeerStatus) (h : NodeHandle Net)
      (group group' : GroupHandle Net) (later : ℕ)
      → group.mapping a ≡ some h
      → Later (after_msg clock now nonce a has_room (upload_peers peers) group) group'
      → fetched later group' a
        ≡ (if ltb (later - clock) ten_seconds && not (is_empty peers) then some peers else none)
  unfolding fetched fresh exec_msg with_handle
  fetched-uploaded clock now nonce has_room peers h group group' later e l =
      HasPeers-fetched later a (some (peers, clock)) (group'.mapping a) (
        Later-HasPeers (some (peers, clock)) _ group'
          (uploaded-HasPeers a (some (peers, clock)) h group (group.mapping a) e) l)
