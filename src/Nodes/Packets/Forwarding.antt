-- ===== src/Nodes/Packets/Forwarding.antt =====
-- Which packets a node passes on (src/node/mod.rs: `PacketSender::send_packet`).
use fubuki_test.Base.{ℕ, ◌≡◌, ◌≢◌, Bool, true, false, ◌&&◌, not, ◌⊎◌, none, some, List}
use fubuki_test.Ipnet.{IpNet}
use fubuki_test.Routing.{Item, RoutingTable, allowed_ips_route}
use fubuki_test.Routing.Route.{find_route}
use fubuki_test.Nodes.{ExtendedNode, get_node, Interface}
use fubuki_test.Nodes.Packets.{
  Direction, is_input, Verdict, dropped, to_tun, to_nat, to_node, to_all, broadcast_addr,
  interface_at, broadcast, is_broadcast_for,
}

module _ {Net : Type 0} (ip : IpNet Net) {T : Type 0} (rt : RoutingTable Net T) (table : T)
    (nat : Bool) (interfaces : List (Interface Net)) (direction : Direction)
    (forward to_kernel : Bool) (src dst : ℕ) where
  -- A packet is dropped without a route and a kernel to take it, where its route's interface is not
  -- there or not connected, where its node is not known or it may not be forwarded, and where it is
  -- for 255.255.255.255 and comes from elsewhere. It stays here if it has no route and goes to the kernel, is for
  -- this node, or came in for all nodes. A packet that leaves for other nodes has a route, and leaves
  -- through that route's interface, which is connected. It goes to one node only if it comes from here
  -- or may be forwarded, and that is the node that the interface's list has for the route's address,
  -- which is not its own. It goes to all only if it comes from here and is for all. The cross NAT, if
  -- there is one, takes only a packet whose first entry is of a network behind a node.
  pub data IsPermitted : Verdict Net → Type 0 where
    no_route :
        find_route rt table src dst ≡ none
        → (is_input direction && to_kernel) ≡ false
        → IsPermitted dropped
    no_interface :
        {to : ℕ} {item : Item Net}
        → find_route rt table src dst ≡ some (to, item)
        → interface_at ip item.interface_index interfaces ≡ none
        → IsPermitted dropped
    cut_off :
        {to : ℕ} {item : Item Net} {i : Interface Net}
        → find_route rt table src dst ≡ some (to, item)
        → interface_at ip item.interface_index interfaces ≡ some i
        → i.server_is_connected ≡ false
        → IsPermitted dropped
    not_known :
        {to : ℕ} {item : Item Net} {i : Interface Net}
        → find_route rt table src dst ≡ some (to, item)
        → interface_at ip item.interface_index interfaces ≡ some i
        → i.addr ≢ to
        → get_node to i.node_list ≡ none
        → IsPermitted dropped
    not_forwarded :
        {to : ℕ} {item : Item Net} {i : Interface Net}
        → find_route rt table src dst ≡ some (to, item)
        → interface_at ip item.interface_index interfaces ≡ some i
        → i.addr ≢ to
        → (is_input direction && not forward) ≡ true
        → IsPermitted dropped
    not_ours :
        {to : ℕ} {item : Item Net} {i : Interface Net}
        → find_route rt table src dst ≡ some (to, item)
        → interface_at ip item.interface_index interfaces ≡ some i
        → to ≡ broadcast_addr
        → is_broadcast_for ip direction i src ≡ false
        → IsPermitted dropped
    handed_up :
        find_route rt table src dst ≡ none
        → (is_input direction && to_kernel) ≡ true
        → IsPermitted to_tun
    is_own :
        {to : ℕ} {item : Item Net} {i : Interface Net}
        → find_route rt table src dst ≡ some (to, item)
        → interface_at ip item.interface_index interfaces ≡ some i
        → i.server_is_connected ≡ true
        → i.addr ≡ to
        → IsPermitted to_tun
    comes_in :
        {to : ℕ} {item : Item Net} {i : Interface Net}
        → find_route rt table src dst ≡ some (to, item)
        → interface_at ip item.interface_index interfaces ≡ some i
        → i.server_is_connected ≡ true
        → is_input direction ≡ true
        → (to ≡ broadcast_addr) ⊎ (ip.broadcast i.cidr ≡ to)
        → IsPermitted to_tun
    translates :
        {item : Item Net}
        → nat ≡ true
        → rt.find table src dst ≡ some item
        → item.extend.item_kind ≡ some allowed_ips_route
        → IsPermitted to_nat
    passes :
        {to : ℕ} {item : Item Net} {i : Interface Net} {n : ExtendedNode Net}
        → find_route rt table src dst ≡ some (to, item)
        → interface_at ip item.interface_index interfaces ≡ some i
        → i.server_is_connected ≡ true
        → i.addr ≢ to
        → get_node to i.node_list ≡ some n
        → (is_input direction && not forward) ≡ false
        → IsPermitted (to_node i n)
    announces :
        {to : ℕ} {item : Item Net} {i : Interface Net}
        → find_route rt table src dst ≡ some (to, item)
        → interface_at ip item.interface_index interfaces ≡ some i
        → i.server_is_connected ≡ true
        → is_input direction ≡ false
        → (to ≡ broadcast_addr) ⊎ (ip.broadcast i.cidr ≡ to)
        → IsPermitted (to_all i)
