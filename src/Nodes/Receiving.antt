-- ===== src/Nodes/Receiving.antt =====
-- The receiving loop of `udp_handler` (src/node/mod.rs): what a datagram changes in the interface
-- and what the node does next. The lookups of the server's address are a parameter, and so are the
-- socket, the clock and the numbers drawn as nonces.
pub mod Trust
pub mod Overlong
use fubuki_test.Base.{
  ℕ, ◌+◌, Bool, true, false, ◌&&◌, ◌||◌, not, Option, none, some, List, [], ◌∷◌, ◌++◌, take, ltb,
  leb, ◌==◌, if◌then◌else◌, Outcome, ok, err, panic, ◌>>=◌, unwrap,
}
use fubuki_test.Heartbeat.{
  UdpStatus, available, unavailable, is_available, HeartbeatCache, reply, UdpPath,
}
use fubuki_test.Protocol.{
  ProtocolError, SocketAddr, contains, udp, server_virtual_addr, UdpMsg, payload, heartbeat, relay,
  req, resp,
}
use fubuki_test.Protocol.Buffer.{split_at}
use fubuki_test.Protocol.Udp.{decode, heartbeat_encode}
use fubuki_test.Routing.{Item, RoutingTable, is_kind, allowed_ips_route}
use fubuki_test.Nodes.{ExtendedNode, NodeList, get_node, Interface}

-- The node's settings that the UDP handler reads.
pub record UdpConfig : Type 0 where
  pub udp_heartbeat_continuous_loss : ℕ
  pub udp_heartbeat_continuous_recv : ℕ
  pub has_bind_device : Bool

abbrev pub same_addr : SocketAddr → SocketAddr → Bool
same_addr a b = a.ip == b.ip && a.port == b.port

module _ {Net T : Type 0} (rt : RoutingTable Net T) where
  abbrev pub is_gateway : Option (Item Net) → Bool
  is_gateway none = false
  is_gateway (some i) = not (is_kind i.extend.item_kind allowed_ips_route)

  -- `is_v4` says which addresses are of IPv4.
  unfoldable pub through_virtual_gateway :
      (is_v4 : SocketAddr → Bool) → T → (src dst : SocketAddr) → Bool
  through_virtual_gateway is_v4 table src dst =
      if is_v4 src && is_v4 dst then is_gateway (rt.find table src.ip dst.ip) else false

-- What the node does after a datagram.
pub data Received : Type 0 where
  nothing : Received
  respond : (to : SocketAddr) (packet : List ℕ) → Received
  -- `send_packet` is called on this range of the buffer.
  pass_on : (start stop : ℕ) (buff : List ℕ) → Received

module _ {Net : Type 0} where
  -- What a node of the list shares with the list's copies is changed in place.
  unfoldable pub modify_node :
      ℕ → (ExtendedNode Net → ExtendedNode Net) → NodeList Net → NodeList Net
  modify_node addr f [] = []
  modify_node addr f (n ∷ ns) =
      if ltb n.node.virtual_addr addr
      then n ∷ modify_node addr f ns
      else (if n.node.virtual_addr == addr then f n ∷ ns else n ∷ ns)

  abbrev pub is_p2p : Interface Net → Bool
  is_p2p inter = contains inter.mode.p2p udp

  -- Storing the address that is there already changes nothing.
  abbrev pub learn :
      (from_addr : ℕ) (peer_addr : SocketAddr)
      → Option (ExtendedNode Net)
      → Interface Net
      → Bool × Interface Net
  learn from_addr peer_addr none inter = (false, inter)
  learn from_addr peer_addr (some en) inter = (
    true,
    record inter {
      node_list =
          modify_node from_addr (λ n. record n { peer_addr = some peer_addr }) inter.node_list;
    },
  )

  -- A request: whether its sender is known.
  unfoldable pub request :
      (from_addr : ℕ) (peer_addr : SocketAddr) → Interface Net → Bool × Interface Net
  request from_addr peer_addr inter =
      if from_addr == server_virtual_addr
      then (true, inter)
      else (if is_p2p inter
          then learn from_addr peer_addr (get_node from_addr inter.node_list) inter
          else (false, inter))

-- What becomes of a path by the result of `reply`, where `enough` is the test before the store.
unfoldable pub confirm :
    (enough : HeartbeatCache → Bool) (peer_addr : SocketAddr)
    → UdpStatus SocketAddr
    → Option ℕ × HeartbeatCache
    → UdpPath SocketAddr
confirm enough peer_addr status (none, hc) = record { status = status; cache = hc }
confirm enough peer_addr status (some elapsed, hc) = record {
  status = if enough hc then available peer_addr else status;
  cache = hc;
}

-- `is_server` is whether `lookup_host(&interface.server_addr)` gives an address, and `through` is
-- `through_virtual_gateway` from the interface's address in its network.
module _ (config : UdpConfig) (is_server through : SocketAddr → Bool) (now : ℕ) where
  abbrev pub has_enough : HeartbeatCache → Bool
  has_enough hc = leb config.udp_heartbeat_continuous_recv hc.packet_continuous_recv_count

  unfoldable pub server_path :
      (peer_addr : SocketAddr) (seq : ℕ)
      → UdpStatus SocketAddr
      → HeartbeatCache
      → UdpPath SocketAddr
  server_path peer_addr seq (available dst_addr) hc =
      if same_addr dst_addr peer_addr
      then record { status = available dst_addr; cache = (reply now seq hc).1 }
      else (if is_server peer_addr
          then confirm (λ _. true) peer_addr (available dst_addr) (reply now seq hc)
          else record { status = available dst_addr; cache = hc })
  server_path peer_addr seq unavailable hc =
      if is_server peer_addr
      then confirm has_enough peer_addr unavailable (reply now seq hc)
      else record { status = unavailable; cache = hc }

  -- Whether a node's path becomes available.
  abbrev pub opens : (peer_addr : SocketAddr) → UdpStatus SocketAddr → HeartbeatCache → Bool
  opens peer_addr status hc =
      not (is_available status)
      && (has_enough hc && (config.has_bind_device || not (through peer_addr)))

  abbrev pub node_path :
      {Net : Type 0} → (peer_addr : SocketAddr) (seq : ℕ) → ExtendedNode Net → UdpPath SocketAddr
  node_path peer_addr seq node =
      confirm (opens peer_addr node.udp_status) peer_addr node.udp_status (reply now seq node.hc)

  unfoldable pub node_resp :
      {Net : Type 0} → (peer_addr : SocketAddr) (seq : ℕ) → ExtendedNode Net → ExtendedNode Net
  node_resp peer_addr seq node =
      let path = node_path peer_addr seq node in
      record node { udp_status = path.status; hc = path.cache }

  -- A response.
  unfoldable pub response :
      {Net : Type 0}
      → (from_addr : ℕ) (peer_addr : SocketAddr) (seq : ℕ) → Interface Net
      → Interface Net
  response from_addr peer_addr seq inter =
      if from_addr == server_virtual_addr
      then (let path = server_path peer_addr seq inter.server_udp_status inter.server_udp_hc in
          record inter { server_udp_status = path.status; server_udp_hc = path.cache })
      else (if is_p2p inter
          then record inter {
            node_list = modify_node from_addr (node_resp peer_addr seq) inter.node_list;
          }
          else inter)

  -- `UdpMsg::heartbeat_encode(key, rng.gen(), interface_addr, seq, HeartbeatType::Resp, &mut buff)`
  abbrev pub respond_if :
      {Net : Type 0}
      → (nonce seq : ℕ) (peer_addr : SocketAddr) (buff : List ℕ) → Bool × Interface Net
      → Outcome ProtocolError (Received × Interface Net)
  respond_if nonce seq peer_addr buff (false, inter) = ok (nothing, inter)
  respond_if nonce seq peer_addr buff (true, inter) = do
    (len, buff') ← heartbeat_encode inter.key nonce inter.addr seq resp buff
    ok (respond peer_addr (take len buff'), inter)

  -- The arms of `match packet`; `len` is the length of the datagram.
  unfoldable pub handle :
      {Net : Type 0}
      → (nonce len : ℕ) (peer_addr : SocketAddr) (buff : List ℕ) → UdpMsg
      → Interface Net
      → Outcome ProtocolError (Received × Interface Net)
  handle nonce len peer_addr buff (heartbeat from_addr seq req) inter =
      respond_if nonce seq peer_addr buff (request from_addr peer_addr inter)
  handle nonce len peer_addr buff (heartbeat from_addr seq resp) inter =
      ok (nothing, response from_addr peer_addr seq inter)
  handle nonce len peer_addr buff (payload content) inter = ok (pass_on 8 (8 + len) buff, inter)
  handle nonce len peer_addr buff (relay to content) inter = ok (pass_on 12 (12 + len) buff, inter)

  abbrev pub decoded :
      {Net : Type 0}
      → (nonce len : ℕ) (peer_addr : SocketAddr) (before rest : List ℕ) → Interface Net
      → Outcome ProtocolError (List ℕ × UdpMsg)
      → Outcome ProtocolError (Received × Interface Net)
  decoded nonce len peer_addr before rest inter (ok (plain, msg)) =
      handle nonce len peer_addr (before ++ (plain ++ rest)) msg inter
  decoded nonce len peer_addr before rest inter (err e) = ok (nothing, inter)
  decoded nonce len peer_addr before rest inter panic = panic

  -- A pass of the loop: `len` bytes from `peer_addr` stand in the buffer behind the first 4.
  unfoldable pub receive :
      {Net : Type 0}
      → (nonce len : ℕ) (peer_addr : SocketAddr) (buff : List ℕ) → Interface Net
      → Outcome ProtocolError (Received × Interface Net)
  receive nonce len peer_addr buff inter = do
    (before, from) ← unwrap (split_at 4 buff)
    (packet, rest) ← unwrap (split_at len from)
    decoded nonce len peer_addr before rest inter (decode inter.key packet)
