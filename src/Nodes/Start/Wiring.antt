-- ===== src/Nodes/Start/Wiring.antt =====
-- The channel, the socket and the cipher that `start` (src/node/mod.rs) gives an interface, for a
-- configuration that src/lib.rs made.
use mathlib.Core.List.{Memᴰ}
use mathlib.Core.List.Memᴰ
use fubuki_test.Base.{
  ℕ, suc, ◌+◌, ◌-◌, ◌≤◌, ◌<◌, ◌^◌, ◌≡◌, ◌≢◌, sym, ◌∙◌, subst, inl, inr, Bool, true, false, ◌&&◌,
  not, Option, none, some, List, [], ◌∷◌, All, length, if◌then◌else◌, ok, step-inv, ok-inv, ensure,
  arith,
}
use fubuki_test.Ipnet.{IpNet}
use fubuki_test.Cipher.Laws.{IsCipher, cipher_enum-IsCipher}
use fubuki_test.Protocol.{ProtocolMode, tcp, udp, contains, is_use_udp, is_use_tcp}
use fubuki_test.Routing.{RoutingTable}
use fubuki_test.Config.{System, try_from, TargetGroupFinalize, NodeConfig, NodeConfigFinalize}
use fubuki_test.Config.Accepted.{is_some}
use fubuki_test.Config.Sound.{IsSound, try_from-IsSound}
use fubuki_test.Nodes.{Interface, ExtendedNode, NodeList}
use fubuki_test.Nodes.NextHop.{Dijkstra}
use fubuki_test.Nodes.NextHop.Recent.{IsPathSearch}
use fubuki_test.Nodes.Sending.{is_empty, mode_for, Outside, Sending, send}
use fubuki_test.Nodes.Sending.Calm.{Serves, p2p_uses_udp, Returns, send-Returns}
use fubuki_test.Nodes.Start.{
  StartSystem, io_error, only_if, bound_socket, open_socket, new_interface, start_groups, Started,
  start, Task, needed, allowed_ips_exists,
}

-- What `send` needs of an interface, and nothing changes while the node runs.
pub record IsWired {Net : Type 0} (inter : Interface Net) : Type 0 where
  pub serves : Serves inter inter.mode
  pub lawful : IsCipher inter.key

module _ {Net Addr : Type 0} (os : StartSystem Addr) (config : NodeConfigFinalize Net Addr) where
  bound_is_some :
      (ipv6 : Bool) (port : ℕ) (b : Bool) → bound_socket os config ipv6 port ≡ ok b → b ≡ true
  bound_is_some ipv6 port b h =
      let (u1, e1, h1) = step-inv (ensure (os.bind ipv6 port) io_error) _ b h in
      let (u2, e2, h2) =
        step-inv (only_if os.set_recv_buffer_size config.udp_socket_recv_buffer_size) _ b h1 in
      let (u3, e3, h3) =
        step-inv (only_if os.set_send_buffer_size config.udp_socket_send_buffer_size) _ b h2 in
      let (u4, e4, h4) =
        step-inv (only_if (λ device. os.bind_device device ipv6) config.socket_bind_device) _ b
          h3 in
      sym (ok-inv false true b h4)

  -- A group has a socket exactly if its mode uses UDP.
  opened :
      (mode : ProtocolMode) (port : ℕ) (lan : Option Addr) (b : Bool)
      → is_some lan ≡ is_use_udp mode
      → open_socket os config mode port lan ≡ ok b
      → b ≡ is_use_udp mode
  opened mode port none b has h = sym (ok-inv false false b h) ∙ has
  opened mode port (some a) b has h =
      bound_is_some (os.is_ipv6 a) port b (
        subst (λ x. (if x then bound_socket os config (os.is_ipv6 a) port else ok false) ≡ ok b)
          (sym has) h)
      ∙ has

module _ {Net Addr : Type 0} (unspecified_net : Net) (now : ℕ) where
  new_interface-IsWired :
      (index : ℕ) (group : TargetGroupFinalize Net Addr) (b : Bool)
      → IsSound group
      → b ≡ is_use_udp group.mode
      → IsWired (new_interface unspecified_net now index group b)
  unfolding new_interface is_use_udp is_use_tcp
  new_interface-IsWired index group b sound e = record {
    serves = (
      (λ h. ground (arith, h), λ h. e ∙ ground (arith, h)),
      λ h. e ∙ ground (arith, p2p_uses_udp group.mode.p2p sound.no_tcp h),
    );
    lawful = cipher_enum-IsCipher group.key sound.has_key;
  }

module _ {Net Addr : Type 0} (ip : IpNet Net) (os : StartSystem Addr) (unspecified_net : Net)
    (now : ℕ) (config : NodeConfigFinalize Net Addr) where
  start_groups-IsWired :
      (index : ℕ) (groups : List (TargetGroupFinalize Net Addr))
      (r : List (Interface Net) × List Task)
      → All IsSound groups
      → start_groups ip os unspecified_net now config index groups ≡ ok r
      → All IsWired r.0
  unfolding start_groups
  start_groups-IsWired index [] r sound h =
      subst (λ x. All IsWired x.0) (ok-inv ([], []) ([], []) r h) tt
  start_groups-IsWired index (group ∷ groups) r (s, ss) h =
      let (udp_opt, o, h1) =
        step-inv (open_socket os config group.mode group.node_binding_port group.lan_ip_addr) _ r
          h in
      let (rest, e, h2) =
        step-inv (start_groups ip os unspecified_net now config (suc index) groups) _ r h1 in
      subst (λ x. All IsWired x.0) (ok-inv ([], []) _ r h2)
        (
          new_interface-IsWired unspecified_net now index group udp_opt s (
              opened os config group.mode group.node_binding_port group.lan_ip_addr udp_opt
                s.has_addr o),
          start_groups-IsWired (suc index) groups rest ss e,
        )

  start-IsWired :
      {T : Type 0} (rt : RoutingTable Net T) (table : T) (shared : Bool) (s : Started Net T)
      → All IsSound config.groups
      → start ip os unspecified_net now config rt table shared ≡ ok s
      → All IsWired s.interfaces
  unfolding start
  start-IsWired rt table shared s sound h =
      let wants_snat = config.cross_nat && allowed_ips_exists config.groups in
      let (u1, e1, h1) = step-inv (ensure (os.set_mtu config.mtu) io_error) _ s h in
      let (u2, e2, h2) = step-inv (needed config.enable_hook os.open_hooks) _ s h1 in
      let (u3, e3, h3) = step-inv (needed config.external_routing_table os.load_table) _ s h2 in
      let (u4, e4, h4) = step-inv (needed wants_snat os.create_snat) _ s h3 in
      let (u5, e5, h5) =
        step-inv (needed (not config.features.disable_route_operation) os.new_route_handle) _ s
          h4 in
      let (r, e6, h6) =
        step-inv (start_groups ip os unspecified_net now config 0 config.groups) _ s h5 in
      subst (λ x. All IsWired x.interfaces) (ok-inv s _ s h6)
        (start_groups-IsWired 0 config.groups r sound e6)

-- The interface as `start` made it, later: these fields have no interior mutability.
pub record IsLater {Net : Type 0} (first later : Interface Net) : Type 0 where
  pub mode : later.mode ≡ first.mode
  pub has_channel : later.has_channel ≡ first.has_channel
  pub has_socket : later.has_socket ≡ first.has_socket
  pub key : later.key ≡ first.key

later-IsWired :
    {Net : Type 0} (first later : Interface Net)
    → IsLater first later
    → IsWired first
    → IsWired later
later-IsWired first later l w = record {
  serves = (
    (
      λ h. l.has_channel ∙ w.serves.0.0 (subst (λ m. contains m.relay tcp ≡ true) l.mode h),
      λ h. l.has_socket ∙ w.serves.0.1 (subst (λ m. contains m.relay udp ≡ true) l.mode h),
    ),
    λ h. l.has_socket ∙ w.serves.1 (subst (λ m. is_empty m.p2p ≡ false) l.mode h),
  );
  lawful = subst IsCipher (sym l.key) w.lawful;
}

All-Mem : {A : Type 0} (P : A → Type 0) (x : A) (xs : List A) → All P xs → Memᴰ x xs → P x
All-Mem P x [] ps m = absurd (Memᴰ.not-nil m)
All-Mem P x (y ∷ ys) (p, ps) m = elim (Memᴰ.cases_cons m) [
  | inl e ↦ subst P (sym e) p
  | inr n ↦ All-Mem P x ys ps n
]

-- At every interface of a node that was started with an accepted configuration, at any later moment,
-- send to a node without a mode of its own in specify_mode does not panic, whatever the sockets
-- answer and whatever the cache holds, and keeps the buffer's length, where hashes have 32 bytes, the
-- packet stands in the buffer behind at least 8 bytes and has at most 262134 bytes, it is for another node, and the search gives
-- paths from the start to the goal.
pub start-send-Returns :
    {Net Addr T : Type 0} (ip : IpNet Net) (system : System Net Addr) (os : StartSystem Addr)
    (unspecified_net : Net) (began : ℕ) (given : NodeConfig Net Addr)
    (config : NodeConfigFinalize Net Addr) (rt : RoutingTable Net T) (table : T) (shared : Bool)
    (s : Started Net T) (first inter : Interface Net) (nonce : ℕ) (dijkstra : Dijkstra)
    (out : Outside) (now start_at stop : ℕ) (node_relay : Bool) (dst_node : ExtendedNode Net)
    (node_list : NodeList Net) (sending : Sending)
    → ((bytes : List ℕ) → length (system.hash bytes) ≡ 32)
    → try_from system given ≡ ok config
    → start ip os unspecified_net began config rt table shared ≡ ok s
    → Memᴰ first s.interfaces
    → IsLater first inter
    → inter.specify_mode dst_node.node.virtual_addr ≡ none
    → nonce < 2 ^ 16
    → IsPathSearch dijkstra
    → 8 ≤ start_at
    → start_at ≤ stop
    → stop ≤ length sending.buff
    → 10 + (stop - start_at) ≤ 262144
    → dst_node.node.virtual_addr < 2 ^ 32
    → inter.addr ≢ dst_node.node.virtual_addr
    → Returns
        (length sending.buff)
        (send dijkstra out now nonce inter start_at stop node_relay dst_node node_list sending)
start-send-Returns ip system os unspecified_net began given config rt table shared s first inter
      nonce dijkstra out now start_at stop node_relay dst_node node_list sending whole accepted
      started member later unspecific small paths room ordered fits allocates is_addr other =
    let w : IsWired inter = later-IsWired first inter later (
      All-Mem IsWired first s.interfaces
        (start-IsWired ip os unspecified_net began config rt table shared s
          (try_from-IsSound system whole given config accepted) started)
        member) in
    send-Returns inter nonce dijkstra out now start_at stop node_relay dst_node node_list sending
      w.lawful small paths room ordered fits allocates is_addr other
      (subst (λ o. Serves inter (mode_for inter o)) (sym unspecific) w.serves)
