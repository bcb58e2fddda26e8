-- ===== src/Nodes/Packets.antt =====
-- `PacketSender::send_packet` (src/node/mod.rs): where a packet from the TUN device, from a hook or
-- from another node goes. The hook's function is a parameter, and so are the numbers drawn as
-- nonces; `nat` is whether the cross NAT is there.
pub mod Forwarding
pub mod Handlers
use fubuki_test.Base.{
  ℕ, suc, ◌+◌, ◌-◌, Bool, true, false, ◌&&◌, not, Option, none, some, List, [], ◌∷◌, ◌++◌, drop,
  ◌==◌, if◌then◌else◌, Outcome, ok, err, panic, ◌>>=◌, unwrap,
}
use fubuki_test.Ipnet.{IpNet}
use fubuki_test.Protocol.{ProtocolError}
use fubuki_test.Protocol.Buffer.{split_at, first32}
use fubuki_test.Routing.{Item, RoutingTable, is_kind, allowed_ips_route}
use fubuki_test.Routing.Route.{find_route}
use fubuki_test.Nodes.{ExtendedNode, NodeList, get_node, Interface}
use fubuki_test.Nodes.NextHop.{Dijkstra, Cache}
use fubuki_test.Nodes.Sending.{Outside, Sending, send}

pub data Direction : Type 0 where
  output input : Direction

abbrev pub is_input : Direction → Bool
is_input input = true
is_input output = false

-- What `packet_recv` of a hook returns, with the packet as it leaves it.
pub data PacketRecvOutput : Type 0 where
  accept refuse : PacketRecvOutput

abbrev pub Hook : Type 0
Hook = Direction → List ℕ → PacketRecvOutput × List ℕ

abbrev pub src_addr : List ℕ → Option ℕ
src_addr packet = first32 (drop 12 packet)

abbrev pub dst_addr : List ℕ → Option ℕ
dst_addr packet = first32 (drop 16 packet)

-- What becomes of a packet.
pub data Verdict (Net : Type 0) : Type 0 where
  dropped : Verdict Net
  to_tun : Verdict Net
  to_nat : Verdict Net
  to_node : Interface Net → ExtendedNode Net → Verdict Net
  to_all : Interface Net → Verdict Net

abbrev pub broadcast_addr : ℕ
broadcast_addr = 4294967295

module _ {Net : Type 0} (ip : IpNet Net) where
  abbrev pub interface_at : ℕ → List (Interface Net) → Option (Interface Net)
  interface_at index [] = none
  interface_at index (i ∷ is) = if i.index == index then some i else interface_at index is

  -- The arm of `Unicast`.
  abbrev pub unicast :
      (direction : Direction) (allow_packet_forward : Bool)
      → Interface Net
      → ℕ
      → Option (ExtendedNode Net)
      → Verdict Net
  unicast direction allow_packet_forward interface addr node =
      if interface.addr == addr
      then to_tun
      else (if is_input direction && not allow_packet_forward
          then dropped
          else elim node [ none ↦ dropped | some n ↦ to_node interface n ])

  -- The arm of `Broadcast`.
  abbrev pub broadcast : Direction → Interface Net → Verdict Net
  broadcast output interface = to_all interface
  broadcast input interface = to_tun

  -- Whether a packet to 255.255.255.255 is one for this interface.
  abbrev pub is_broadcast_for : Direction → Interface Net → (src : ℕ) → Bool
  is_broadcast_for output interface src = interface.addr == src
  is_broadcast_for input interface src = ip.contains interface.cidr src

  -- From the transfer type on.
  abbrev pub over_interface :
      (direction : Direction) (allow_packet_forward : Bool) (src dst : ℕ)
      → Interface Net
      → Verdict Net
  over_interface direction allow_packet_forward src dst interface =
      if dst == broadcast_addr
      then (if is_broadcast_for direction interface src
          then broadcast direction interface
          else dropped)
      else (if ip.broadcast interface.cidr == dst
          then broadcast direction interface
          else unicast direction allow_packet_forward interface dst
              (get_node dst interface.node_list))

  abbrev pub through_interface :
      (direction : Direction) (allow_packet_forward : Bool) (src dst : ℕ)
      → Option (Interface Net)
      → Verdict Net
  through_interface direction allow_packet_forward src dst none = dropped
  through_interface direction allow_packet_forward src dst (some interface) =
      if interface.server_is_connected
      then over_interface direction allow_packet_forward src dst interface
      else dropped

  abbrev pub routed :
      (direction : Direction) (allow_packet_forward to_kernel : Bool) (src : ℕ)
      → List (Interface Net)
      → Option (ℕ × Item Net)
      → Verdict Net
  routed direction allow_packet_forward to_kernel src interfaces none =
      if is_input direction && to_kernel then to_tun else dropped
  routed direction allow_packet_forward to_kernel src interfaces (some (dst, item)) =
      through_interface direction allow_packet_forward src dst
        (interface_at item.interface_index interfaces)

  -- Whether the cross NAT takes a packet, by the entry that `find_once` returns.
  abbrev pub for_nat : (nat : Bool) → Option (Item Net) → Bool
  for_nat nat none = false
  for_nat nat (some i) = nat && is_kind i.extend.item_kind allowed_ips_route

  unfoldable pub route_packet :
      {T : Type 0}
      → RoutingTable Net T
      → T
      → (nat : Bool) → List (Interface Net)
      → (direction : Direction) (allow_packet_forward to_kernel : Bool) (src dst : ℕ) → Verdict Net
  route_packet rt table nat interfaces direction allow_packet_forward to_kernel src dst =
      if for_nat nat (rt.find table src dst)
      then to_nat
      else routed direction allow_packet_forward to_kernel src interfaces
          (find_route rt table src dst)

abbrev pub hooked : Option Hook → Direction → List ℕ → PacketRecvOutput × List ℕ
hooked none direction packet = (accept, packet)
hooked (some hook) direction packet = hook direction packet

-- What a call of `send_packet` did: nothing, a packet to the TUN device or to the cross NAT, or
-- packets to other nodes.
pub data Sent : Type 0 where
  nothing : Sent
  tun_packet nat_packet : List ℕ → Sent
  node_packets : Sending → Sent

module _ {Net : Type 0} (dijkstra : Dijkstra) (out : Outside) (now : ℕ) (start stop : ℕ) where
  -- The loop over the nodes, but the node itself; `nonce` is drawn for every attempt.
  unfoldable pub send_all :
      (nonce : ℕ → ℕ)
      → Interface Net
      → (all nodes : NodeList Net) → Sending
      → Outcome ProtocolError Sending
  send_all nonce interface all [] s = ok s
  send_all nonce interface all (node ∷ nodes) s =
      if node.node.virtual_addr == interface.addr
      then send_all nonce interface all nodes s
      else (send dijkstra out now (nonce s.attempts) interface start stop false node all s >>= λ s'.
          send_all nonce interface all nodes s')

  abbrev pub perform :
      (nonce : ℕ → ℕ) → (packet : List ℕ) → Sending → Verdict Net → Outcome ProtocolError Sent
  perform nonce packet s dropped = ok nothing
  perform nonce packet s to_tun = ok (tun_packet packet)
  perform nonce packet s to_nat = ok (nat_packet packet)
  perform nonce packet s (to_node interface node) =
      send dijkstra out now (nonce s.attempts) interface start stop true node interface.node_list s
      >>= λ s'. ok (node_packets s')
  perform nonce packet s (to_all interface) =
      send_all nonce interface interface.node_list interface.node_list s >>= λ s'.
      ok (node_packets s')

module _ {Net : Type 0} (ip : IpNet Net) (dijkstra : Dijkstra) (out : Outside) (now : ℕ)
    (start stop : ℕ) where
  abbrev pub after_hook :
      {T : Type 0}
      → RoutingTable Net T
      → T
      → (nat : Bool) → List (Interface Net)
      → (nonce : ℕ → ℕ)
      → (direction : Direction) (allow_packet_forward to_kernel : Bool) (src dst : ℕ)
      → (before rest : List ℕ) → Sending
      → PacketRecvOutput × List ℕ
      → Outcome ProtocolError Sent
  after_hook rt table nat interfaces nonce direction forward to_kernel src dst before rest s
        (refuse, packet) =
      ok nothing
  after_hook rt table nat interfaces nonce direction forward to_kernel src dst before rest s
        (accept, packet) =
      perform dijkstra out now start stop nonce packet
        (record s { buff = before ++ (packet ++ rest) })
        (route_packet ip rt table nat interfaces direction forward to_kernel src dst)

  abbrev pub addressed :
      {T : Type 0}
      → RoutingTable Net T
      → T
      → (nat : Bool) → List (Interface Net)
      → Option Hook
      → (nonce : ℕ → ℕ) → (direction : Direction) (allow_packet_forward to_kernel : Bool)
      → (before packet rest : List ℕ) → Sending
      → (src dst : Option ℕ) → Outcome ProtocolError Sent
  addressed rt table nat interfaces hook nonce direction forward to_kernel before packet rest s
        (some src) (some dst) =
      after_hook rt table nat interfaces nonce direction forward to_kernel src dst before rest s
        (hooked hook direction packet)
  addressed rt table nat interfaces hook nonce direction forward to_kernel before packet rest s none
        dst =
      ok nothing
  addressed rt table nat interfaces hook nonce direction forward to_kernel before packet rest s
        (some src) none =
      ok nothing

  unfoldable pub send_packet :
      {T : Type 0}
      → RoutingTable Net T
      → T
      → (nat : Bool) → List (Interface Net)
      → Option Hook
      → (nonce : ℕ → ℕ) → (direction : Direction) (allow_packet_forward to_kernel : Bool) → Sending
      → Outcome ProtocolError Sent
  send_packet rt table nat interfaces hook nonce direction forward to_kernel s = do
    (before, from) ← unwrap (split_at start s.buff)
    (packet, rest) ← unwrap (split_at (stop - start) from)
    addressed rt table nat interfaces hook nonce direction forward to_kernel before packet rest s
        (src_addr packet) (dst_addr packet)
