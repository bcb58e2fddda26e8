-- ===== src/Nodes/Start.antt =====
-- `start` (src/node/mod.rs): the first entries of the routing table, the interfaces of the groups,
-- and the tasks that are started. What the system answers is a parameter, `true` where a call
-- succeeds.
pub mod Wiring
use fubuki_test.Base.{
  ℕ, suc, Bool, true, false, ◌&&◌, not, Option, none, some, List, [], ◌∷◌, ◌++◌, ◌==◌,
  if◌then◌else◌, Outcome, ok, ensure, ◌>>=◌, ◌>>◌,
}
use fubuki_test.Ipnet.{IpNet}
use fubuki_test.Cipher.{cipher_enum}
use fubuki_test.Heartbeat as Heartbeat
use fubuki_test.Heartbeat.{unavailable}
use fubuki_test.Protocol.{ProtocolMode, is_use_udp, is_use_tcp}
use fubuki_test.Routing.{Item, RoutingTable, ips_route}
use fubuki_test.Config.{TargetGroupFinalize, NodeConfigFinalize}
use fubuki_test.Nodes.{Interface}

pub data StartError : Type 0 where
  io_error : StartError

pub record StartSystem (Addr : Type 0) : Type 0 where
  pub is_ipv6 : Addr → Bool
  pub set_mtu : ℕ → Bool
  pub open_hooks : Bool
  pub load_table : Bool
  pub create_snat : Bool
  pub new_route_handle : Bool
  -- A UDP socket that is bound to a port of any address.
  pub bind : (ipv6 : Bool) (port : ℕ) → Bool
  pub set_recv_buffer_size : ℕ → Bool
  pub set_send_buffer_size : ℕ → Bool
  pub bind_device : List ℕ → (ipv6 : Bool) → Bool

-- `net_route::Route` with its gateway.
pub record Route : Type 0 where
  pub destination : ℕ
  pub prefix : ℕ
  pub gateway : ℕ

pub data Task : Type 0 where
  tcp_task : (interface_index : ℕ) (routes : List Route) → Task
  udp_task : (interface_index : ℕ) → Task
  tun_task : (hooked : Bool) → Task
  api_task : Task
  send_packet_hook_task : Task

-- What runs when `start` waits for its tasks.
pub record Started (Net T : Type 0) : Type 0 where
  pub interfaces : List (Interface Net)
  pub table : T
  pub has_snat : Bool
  pub tasks : List Task

abbrev pub only_if : {A : Type 0} → (A → Bool) → Option A → Outcome StartError (Unit {0})
only_if set none = ok tt
only_if set (some v) = ensure (set v) io_error

abbrev pub needed : (wanted result : Bool) → Outcome StartError (Unit {0})
needed wanted result = if wanted then ensure result io_error else ok tt

unfoldable pub allowed_ips_exists : {Net Addr : Type 0} → List (TargetGroupFinalize Net Addr) → Bool
allowed_ips_exists [] = false
allowed_ips_exists (group ∷ groups) =
    let rest = allowed_ips_exists groups in elim group.allowed_ips [ [] ↦ rest | _ ∷ _ ↦ true ]

-- `specify_mode.get(..)`
unfoldable pub specified : List (ℕ × ProtocolMode) → ℕ → Option ProtocolMode
specified [] addr = none
specified ((k, v) ∷ rest) addr = if k == addr then some v else specified rest addr

module _ {Net : Type 0} where
  -- `init_routing_table`
  abbrev pub add_cidrs : {T : Type 0} → RoutingTable Net T → (index dst : ℕ) → List Net → T → T
  add_cidrs rt index dst [] table = table
  add_cidrs rt index dst (cidr ∷ cidrs) table = add_cidrs rt index dst cidrs (
      rt.add
        (record {
          cidr = cidr;
          gateway = dst;
          interface_index = index;
          extend = record { item_kind = some ips_route };
        })
        table)

  abbrev pub add_ips : {T : Type 0} → RoutingTable Net T → (index : ℕ) → List (ℕ × List Net) → T → T
  add_ips rt index [] table = table
  add_ips rt index ((dst, cidrs) ∷ ips) table =
      add_ips rt index ips (add_cidrs rt index dst cidrs table)

  unfoldable pub init_routing_table :
      {Addr T : Type 0}
      → RoutingTable Net T
      → (index : ℕ) → List (TargetGroupFinalize Net Addr)
      → T
      → T
  init_routing_table rt index [] table = table
  init_routing_table rt index (group ∷ groups) table =
      init_routing_table rt (suc index) groups (add_ips rt index group.ips table)

module _ {Net Addr : Type 0} (os : StartSystem Addr) (config : NodeConfigFinalize Net Addr) where
  abbrev pub bound_socket : (ipv6 : Bool) (port : ℕ) → Outcome StartError Bool
  bound_socket ipv6 port = do
    ensure (os.bind ipv6 port) io_error
    only_if os.set_recv_buffer_size config.udp_socket_recv_buffer_size
    only_if os.set_send_buffer_size config.udp_socket_send_buffer_size
    only_if (λ device. os.bind_device device ipv6) config.socket_bind_device
    ok true

  -- Whether there is a socket, `udp_opt`.
  abbrev pub open_socket : ProtocolMode → (port : ℕ) → Option Addr → Outcome StartError Bool
  open_socket mode port none = ok false
  open_socket mode port (some lan_ip_addr) =
      let bound = bound_socket (os.is_ipv6 lan_ip_addr) port in
      if is_use_udp mode then bound else ok false

module _ {Net Addr : Type 0} (unspecified_net : Net) (now : ℕ) where
  unfoldable pub new_interface :
      (index : ℕ) → TargetGroupFinalize Net Addr → (udp_opt : Bool) → Interface Net
  new_interface index group udp_opt = record {
    index = index;
    node_name = group.node_name;
    group_name = none;
    addr = 0;
    cidr = unspecified_net;
    mode = group.mode;
    specify_mode = specified group.specify_mode;
    node_list = [];
    server_addr = group.server_addr;
    server_udp_hc = Heartbeat.new now;
    server_udp_status = unavailable;
    server_tcp_hc = Heartbeat.new now;
    server_is_connected = false;
    server_allow_udp_relay = false;
    server_allow_tcp_relay = false;
    has_channel = is_use_tcp group.mode;
    has_socket = udp_opt;
    key = cipher_enum group.key;
    peers_map = if group.auto_route_selection then some (λ addr. none) else none;
  }

module _ {Net Addr : Type 0} (ip : IpNet Net) (os : StartSystem Addr) (unspecified_net : Net)
    (now : ℕ) (config : NodeConfigFinalize Net Addr) where
  abbrev pub routes_to : (gateway : ℕ) → List Net → List Route
  routes_to gateway [] = []
  routes_to gateway (cidr ∷ cidrs) =
      record { destination = ip.network cidr; prefix = ip.prefix_len cidr; gateway = gateway }
      ∷ routes_to gateway cidrs

  abbrev pub routes_of : List (ℕ × List Net) → List Route
  routes_of [] = []
  routes_of ((gateway, cidrs) ∷ ips) = routes_to gateway cidrs ++ routes_of ips

  abbrev pub group_tasks : Interface Net → TargetGroupFinalize Net Addr → List Task
  group_tasks interface group =
      tcp_task interface.index (routes_of group.ips)
      ∷ (if interface.has_socket then udp_task interface.index ∷ [] else [])

  -- The loop over the groups.
  unfoldable pub start_groups :
      (index : ℕ)
      → List (TargetGroupFinalize Net Addr)
      → Outcome StartError (List (Interface Net) × List Task)
  start_groups index [] = ok ([], [])
  start_groups index (group ∷ groups) = do
    udp_opt ← open_socket os config group.mode group.node_binding_port group.lan_ip_addr
    let interface = new_interface unspecified_net now index group udp_opt
    (interfaces, tasks) ← start_groups (suc index) groups
    ok (interface ∷ interfaces, group_tasks interface group ++ tasks)

  abbrev pub last_tasks : (ctx_is_shared : Bool) → List Task
  last_tasks ctx_is_shared =
      (tun_task config.enable_hook
        ∷ (if not config.features.disable_api_server then api_task ∷ [] else []))
      ++ (if ctx_is_shared then send_packet_hook_task ∷ [] else [])

  -- `ctx_is_shared` is `Arc::strong_count(&ctx) > 1`, and `table` the empty table of the kind that
  -- the configuration asks for.
  unfoldable pub start :
      {T : Type 0}
      → RoutingTable Net T
      → T
      → (ctx_is_shared : Bool) → Outcome StartError (Started Net T)
  start rt table ctx_is_shared = do
    let wants_snat = config.cross_nat && allowed_ips_exists config.groups
    ensure (os.set_mtu config.mtu) io_error
    needed config.enable_hook os.open_hooks
    needed config.external_routing_table os.load_table
    let table' = init_routing_table rt 0 config.groups table
    needed wants_snat os.create_snat
    needed (not config.features.disable_route_operation) os.new_route_handle
    (interfaces, tasks) ← start_groups 0 config.groups
    ok (record {
      interfaces = interfaces;
      table = table';
      has_snat = wants_snat;
      tasks = tasks ++ last_tasks ctx_is_shared;
    })
