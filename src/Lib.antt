-- ===== src/Lib.antt =====
-- A verification model of fubuki, a mesh VPN in Rust: nodes register with a server over TCP, learn of
-- each other from it, and send IP packets to each other, directly or through the server.
--
-- The parts, and how they interact
--   Every packet between nodes and server is one of the messages of `mod protocol`, enciphered under
--   the key of the group. The server gives out virtual addresses, sends the list of nodes whenever
--   it changes, watches the nodes' UDP paths by heartbeats, and relays packets between nodes under the
--   limits of the flow control. A node looks a packet's destination up in a routing table.
--
-- Base            Lists under native numbers, Boolean tests, calls that return, fail or panic
--                 (Outcome), exclusive or, fixed-width integers. Shared by all other modules.
-- Cipher          src/common/cipher.rs: XorCipher, NoOpCipher, CipherEnum. blake3::hash is a parameter.
--                 Cipher.Stream and Cipher.Laws hold the proofs; other modules take any IsCipher.
-- Protocol        src/common/net.rs, `mod protocol`: the messages. Protocol.Udp and Protocol.Tcp are
--                 the two framings, each with its encoders and its decoder. bincode is a parameter
--                 (Codec), of which a round trip is assumed where a theorem says so.
-- Heartbeat       src/common/net.rs, HeartbeatCache and HeartbeatInfo, and what udp_handler of
--                 src/server/mod.rs does with them (round, receive_resp).
-- Flow            src/common/net.rs, FlowControl. The pool is a list of entries, an operation under
--                 the pool's lock is one function.
-- Ipnet           The methods of ipnet::Ipv4Net that the program calls, as a parameter with laws from
--                 their documentation; Ipnet.Sample is an instance for runs.
-- Routing         src/routing_table: Routing.Array is array.rs, Routing.Hash is hash.rs (the cargo feature
--                 hash-routing-table), Routing.External is external.rs, and Routing.Route is
--                 find_route of src/node/mod.rs over any table.
-- Allocator       src/common/allocator.rs: the shared buffer that packets are cut from.
-- Server          src/server/mod.rs. Server.Pool is AddressPool, Server.Register is Tunnel::init,
--                 Server.Lifecycle is the tunnels of a group from init to drop as a step relation,
--                 Server.Relay is the receiving loop of udp_handler, Server.Beats its heartbeat
--                 schedule, Server.Exec the messages and heartbeats of Tunnel::exec, and Server.Info
--                 what the HTTP interface is told.
-- Nodes           src/node/mod.rs. Nodes is the state (Interface, ExtendedNode, get_node); below it
--                 Merge (the arm for NodeMap), NextHop (find_next_hop), Sending (send), Packets
--                 (PacketSender::send_packet), Receiving and Schedule (the two loops of udp_handler),
--                 Connection (the messages, heartbeats and upload of tcp_handler), Joining (register),
--                 Ranges (update_tun_addr), Start (start: interfaces and tasks), NativeNat (when
--                 tcp_handler gives the NAT commands of src/nat/linux.rs), SysRoute
--                 (src/node/sys_route.rs; net_route is a parameter, Handle) and CrossNat
--                 (udp_inbound_handler of src/node/cross_nat.rs, in all interleavings of the handler
--                 and its children). Packets.Handlers are the loops that hand packets to send_packet:
--                 tun_handler, send_packet_hook_handler and netstatck_handler.
--                 pathfinding::dijkstra is a parameter (Dijkstra), and so are the answers of the
--                 sockets (Outside) and of the TUN device (accepts).
-- Config          src/lib.rs: NodeConfigFinalize::try_from, and Config.Server for the server's. What is
--                 asked of the system is a parameter (System). Config.Sound is what Nodes.Start relies
--                 on of an accepted configuration.
--
-- How state and time are modelled
--   A struct is a record, an operation takes the old state and returns the new one. A HashMap or a
--   HashSet of the server is a function of its keys. Both ends of a watch channel are the value last
--   sent. What nodes share by Arc (the status, the heartbeats) is changed in the one list of nodes. A
--   UDP packet is encoded in place, in the one buffer that all attempts to send it share. The monotonic
--   clock and the time of day are arguments. An address is the number of its 32 bits. Sums that wrap
--   in a release build are written with their modulus.
--
-- Bounds and fuel
--   find_route follows at most five gateways; that number is the recursion's argument, so no fuel runs
--   out. All other loops are recursions over lists. Counters are below 2 ^ 64 where a theorem says so.
--
-- Not modelled
--   The sockets, the TUN devices, the NAT commands of macOS and Windows, the route command of macOS,
--   the HTTP interfaces, the command line, the C bindings and the web files: input and output only. Of the
--   node, the hosts file; of the server, the start of its listeners; of the
--   cross NAT, the streams of its TCP handler.
--   A task of the node is modelled pass by pass: what two tasks do to one node at once is not.
pub mod Allocator
pub mod Base
pub mod Cipher
pub mod Config
pub mod Flow
pub mod Heartbeat
pub mod Ipnet
pub mod Nodes
pub mod Protocol
pub mod Routing
pub mod Server
