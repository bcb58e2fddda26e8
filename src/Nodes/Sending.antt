-- ===== src/Nodes/Sending.antt =====
-- `send` (src/node/mod.rs): a packet that stands in a buffer goes to one node, directly, through
-- another node or through the server. The sockets' answers are a parameter, in the order of the
-- attempts; a fatal error of a socket is `io_error`.
pub mod Delivery
pub mod Twice
pub mod Calm
use fubuki_test.Base.{
  ℕ, suc, ◌+◌, ◌-◌, Bool, true, false, ◌&&◌, not, Option, none, some, List, [], ◌∷◌, ◌++◌, ltb, leb,
  length, replicate, if◌then◌else◌, Outcome, ok, err, panic, ◌>>=◌, ◌>>◌, unwrap, check,
}
use fubuki_test.Allocator.{buffer_size}
use fubuki_test.Heartbeat.{UdpStatus, available, unavailable}
use fubuki_test.Protocol.{
  NetProtocol, NetProtocols, tcp, udp, ProtocolMode, SocketAddr, ProtocolError, io_error,
}
use fubuki_test.Protocol.Buffer.{split_at}
use fubuki_test.Protocol.Udp as Udp
use fubuki_test.Protocol.Udp.{Written}
use fubuki_test.Protocol.Tcp as Tcp
use fubuki_test.Nodes.{ExtendedNode, NodeList, get_node, Interface, Peers}
use fubuki_test.Nodes.NextHop.{NextHop, Dijkstra, Cache, find_next_hop}

pub data Wire : Type 0 where
  datagram : (to : SocketAddr) (bytes : List ℕ) → Wire
  tcp_message : (bytes : List ℕ) → Wire

pub data SendResult : Type 0 where
  delivered fatal suppressed : SendResult

-- What the socket answers to each attempt, and whether the channel has room at it.
pub record Outside : Type 0 where
  pub send_msg : (attempt : ℕ) → SendResult
  pub try_send : (attempt : ℕ) → Bool

-- The state that `send` works on: the buffer, the cached next hops, the attempts made so far, and
-- what was sent, the last first.
pub record Sending : Type 0 where
  pub buff : List ℕ
  pub cache : Cache
  pub attempts : ℕ
  pub sent : List Wire

-- Whether `send` has returned, and the state.
abbrev pub Progress : Type 0
Progress = Outcome ProtocolError (Bool × Sending)

infixl 4 ◌or_else◌
abbrev pub ◌or_else◌ : Progress → (Sending → Progress) → Progress
ok (true, s) or_else next = ok (true, s)
ok (false, s) or_else next = next s
err e or_else next = err e
panic or_else next = panic

-- `let packet = &mut buff[start..stop]; encode(packet)`: the packet, and the buffer after it.
unfoldable pub encode_in :
    (start stop : ℕ) → (List ℕ → Written) → List ℕ → Outcome ProtocolError (List ℕ × List ℕ)
encode_in start stop encode buff = do
  (before, from) ← unwrap (split_at start buff)
  (packet, rest) ← unwrap (split_at (stop - start) from)
  (len, packet') ← encode packet
  ok (packet', before ++ (packet' ++ rest))

-- `send_msg(..).await`, with the returns of its three arms.
abbrev pub answered : SendResult → SocketAddr → List ℕ → Sending → Progress
answered delivered to bytes s =
    ok (true, record s { attempts = suc s.attempts; sent = datagram to bytes ∷ s.sent })
answered fatal to bytes s = err io_error
answered suppressed to bytes s = ok (false, record s { attempts = suc s.attempts })

abbrev pub handed : Bool → List ℕ → Sending → Progress
handed true bytes s =
    ok (true, record s { attempts = suc s.attempts; sent = tcp_message bytes ∷ s.sent })
handed false bytes s = ok (false, record s { attempts = suc s.attempts })

-- `find_next_hop`, whose only failure is a panic.
abbrev pub found : {A : Type 0} → Outcome (Unit {0}) A → Outcome ProtocolError A
found (ok a) = ok a
found (err e) = panic
found panic = panic

abbrev pub is_empty : NetProtocols → Bool
is_empty [] = true
is_empty (p ∷ ps) = false

-- `specify_mode.get(..).unwrap_or(&inter.mode)`
abbrev pub mode_for : {Net : Type 0} → Interface Net → Option ProtocolMode → ProtocolMode
mode_for inter none = inter.mode
mode_for inter (some mode) = mode

module _ {Net : Type 0} (dijkstra : Dijkstra) (out : Outside) (now nonce : ℕ)
    (inter : Interface Net) (start stop : ℕ) where
  abbrev pub packet_len : ℕ
  packet_len = stop - start

  -- A packet encoded in the buffer from `front` bytes before the content on, and sent.
  unfoldable pub send_datagram : (front : ℕ) → (List ℕ → Written) → SocketAddr → Sending → Progress
  send_datagram front encode to s = do
    check (leb front start)
    (packet, buff) ← encode_in (start - front) stop encode s.buff
    answered (out.send_msg s.attempts) to packet (record s { buff = buff })

  unfoldable pub send_data : SocketAddr → Sending → Progress
  send_data to s =
      check inter.has_socket >> send_datagram 4 (Udp.data_encode inter.key nonce packet_len) to s

  -- Through a node that the list has, if its path is available.
  abbrev pub send_through : Option (ExtendedNode Net) → Sending → Progress
  send_through none s = ok (false, s)
  send_through (some node) s = elim node.udp_status [
    | available dst_addr ↦ send_data dst_addr s
    | unavailable ↦ ok (false, s)
  ]

  abbrev pub through_hop : (max_cost : ℕ) → NodeList Net → Option NextHop → Sending → Progress
  through_hop max_cost node_list none s = ok (false, s)
  through_hop max_cost node_list (some next) s =
      if ltb next.cost max_cost
      then send_through (get_node next.next node_list) s
      else ok (false, s)

  abbrev pub through_peers : (max_cost dst : ℕ) → NodeList Net → Option Peers → Sending → Progress
  through_peers max_cost dst node_list none s = ok (false, s)
  through_peers max_cost dst node_list (some peers) s =
      found (find_next_hop dijkstra now inter.addr dst peers s.cache) >>= λ r.
      through_hop max_cost node_list r.0 (record s { cache = r.1 })

  -- `relay_packet_through_node!(max_cost)`
  unfoldable pub relay_packet_through_node :
      (max_cost : ℕ) (node_relay : Bool) (dst : ℕ) → NodeList Net → Sending → Progress
  relay_packet_through_node max_cost node_relay dst node_list s =
      if node_relay then through_peers max_cost dst node_list inter.peers_map s else ok (false, s)

  unfoldable pub send_direct : UdpStatus SocketAddr → Sending → Progress
  send_direct (available dst_addr) s = send_data dst_addr s
  send_direct unavailable s = ok (false, s)

  -- `alloc` gives zeros, and panics where it is asked for more than BUFFER_SIZE bytes.
  unfoldable pub relay_tcp : (dst : ℕ) → Sending → Progress
  relay_tcp dst s = do
    check inter.has_channel
    check (leb (10 + packet_len) buffer_size)
    (before, from) ← unwrap (split_at start s.buff)
    (content, rest) ← unwrap (split_at packet_len from)
    (len, packet) ← Tcp.relay_encode inter.key nonce dst packet_len (replicate 10 0 ++ content)
    handed (out.try_send s.attempts) packet s

  abbrev pub relay_udp_to : (dst : ℕ) → UdpStatus SocketAddr → Sending → Progress
  relay_udp_to dst unavailable s = ok (false, s)
  relay_udp_to dst (available dst_addr) s =
      send_datagram 8 (Udp.relay_encode inter.key nonce dst packet_len) dst_addr s

  unfoldable pub relay_udp : (dst : ℕ) → Sending → Progress
  relay_udp dst s = check inter.has_socket >> relay_udp_to dst inter.server_udp_status s

  abbrev pub relay_by : NetProtocol → (dst : ℕ) → Sending → Progress
  relay_by tcp dst s = if inter.server_allow_tcp_relay then relay_tcp dst s else ok (false, s)
  relay_by udp dst s = if inter.server_allow_udp_relay then relay_udp dst s else ok (false, s)

  -- The loop over `mode.relay`.
  unfoldable pub relay_loop : NetProtocols → (dst : ℕ) → Sending → Progress
  relay_loop [] dst s = ok (false, s)
  relay_loop (np ∷ nps) dst s = relay_by np dst s or_else λ s'. relay_loop nps dst s'

  -- The attempts, by the modes of both sides.
  abbrev pub attempts :
      (node_relay : Bool) (dst : ℕ) (mode theirs : ProtocolMode)
      → UdpStatus SocketAddr
      → NodeList Net
      → Sending
      → Progress
  attempts node_relay dst mode theirs udp_status node_list s =
      let support_p2p = not (is_empty mode.p2p) && not (is_empty theirs.p2p) in
      let support_relay = not (is_empty mode.relay) && not (is_empty theirs.relay) in
      (if support_p2p
        then (send_direct udp_status s or_else λ s'.
            relay_packet_through_node 2 node_relay dst node_list s')
        else ok (false, s))
      or_else (λ s'. if support_relay then relay_loop mode.relay dst s' else ok (false, s'))
      or_else (λ s'.
          if support_p2p
          then relay_packet_through_node 5 node_relay dst node_list s'
          else ok (false, s'))

  unfoldable pub send :
      (node_relay : Bool)
      → ExtendedNode Net
      → NodeList Net
      → Sending
      → Outcome ProtocolError Sending
  send node_relay dst_node node_list s =
      let dst = dst_node.node.virtual_addr in
      let mode = mode_for inter (inter.specify_mode dst) in
      attempts node_relay dst mode dst_node.node.mode dst_node.udp_status node_list s >>= λ r.
      ok r.1
