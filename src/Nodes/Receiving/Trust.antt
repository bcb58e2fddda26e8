-- ===== src/Nodes/Receiving/Trust.antt =====
-- Which responses the receiving loop of `udp_handler` (src/node/mod.rs) takes for a proof that a
-- path works.
use fubuki_test.Base.{
  ℕ, ◌≡◌, ◌≢◌, ◌-◌, ◌≤◌, ◌⊎◌, inl, inr, refl, Bool, true, false, Bool-cases, ◌||◌, not, Option,
  none, some, [], ◌∷◌, ltb, ◌==◌, ℕ_discrete, arith,
}
use fubuki_test.Heartbeat.{UdpStatus, available, unavailable, is_available, HeartbeatCache, reply}
use fubuki_test.Protocol.{SocketAddr, server_virtual_addr}
use fubuki_test.Nodes.{ExtendedNode, NodeList, get_node, Interface}
use fubuki_test.Nodes.Receiving.{
  UdpConfig, same_addr, modify_node, is_p2p, confirm, has_enough, server_path, opens, node_resp,
  response,
}

module _ {Net : Type 0} where
  abbrev mapped :
      (ExtendedNode Net → ExtendedNode Net) → Option (ExtendedNode Net) → Option (ExtendedNode Net)
  mapped f none = none
  mapped f (some n) = some (f n)

  get_node-modify_node :
      (addr : ℕ) (f : ExtendedNode Net → ExtendedNode Net) (l : NodeList Net)
      → ((n : ExtendedNode Net) → (f n).node.virtual_addr ≡ n.node.virtual_addr)
      → get_node addr (modify_node addr f l) ≡ mapped f (get_node addr l)
  unfolding get_node modify_node
  get_node-modify_node addr f [] keeps = refl
  get_node-modify_node addr f (n ∷ ns) keeps = elim (Bool-cases (ltb n.node.virtual_addr addr)) [
    | inl h ↦ rw (h, h) (get_node-modify_node addr f ns keeps)
    | inr h ↦ rw h (elim (Bool-cases (n.node.virtual_addr == addr)) [
      | inl e ↦ rw (e, keeps n, h, e) refl
      | inr e ↦ rw (e, h, e) refl
    ])
  ]

  get_node-modify_other :
      (a addr : ℕ) (f : ExtendedNode Net → ExtendedNode Net) (l : NodeList Net)
      → ((n : ExtendedNode Net) → (f n).node.virtual_addr ≡ n.node.virtual_addr)
      → a ≢ addr
      → get_node a (modify_node addr f l) ≡ get_node a l
  unfolding get_node modify_node
  get_node-modify_other a addr f [] keeps other = refl
  get_node-modify_other a addr f (n ∷ ns) keeps other =
      elim (Bool-cases (ltb n.node.virtual_addr addr)) [
        | inl h ↦ rw h (elim (Bool-cases (ltb n.node.virtual_addr a)) [
          | inl l ↦ rw l (get_node-modify_other a addr f ns keeps other)
          | inr l ↦ rw l refl
        ])
        | inr h ↦ rw h (elim (Bool-cases (n.node.virtual_addr == addr)) [
          | inl e ↦
              let differs : (n.node.virtual_addr == a) ≡ false = ground (arith, other, e) in
              rw (e, keeps n, differs) refl
          | inr e ↦ rw e refl
        ])
      ]

module _ (enough : HeartbeatCache → Bool) (peer_addr : SocketAddr)
    (status : UdpStatus SocketAddr) where
  -- The status stays, or the test held and it is the peer's address.
  abbrev Changes : Bool → UdpStatus SocketAddr → Type 0
  Changes allowed after = (after ≡ status) ⊎ ((after ≡ available peer_addr) × (allowed ≡ true))

  confirm-some :
      (elapsed : ℕ) (hc : HeartbeatCache)
      → Changes (enough hc) (confirm enough peer_addr status (some elapsed, hc)).status
  unfolding confirm
  confirm-some elapsed hc = elim (Bool-cases (enough hc)) [
    | inl e ↦ rw e (inr (refl, refl))
    | inr e ↦ rw e (inl refl)
  ]

  confirm-cache : (r : Option ℕ × HeartbeatCache) → (confirm enough peer_addr status r).cache ≡ r.1
  unfolding confirm
  confirm-cache (none, hc) = refl
  confirm-cache (some elapsed, hc) = refl

  confirm-changes :
      (now seq : ℕ) (hc : HeartbeatCache)
      → let after = (confirm enough peer_addr status (reply now seq hc)).status in
        (after ≡ status)
        ⊎ ((after ≡ available peer_addr) × (hc.seq ≡ seq) × (enough (reply now seq hc).1 ≡ true))
  unfolding confirm reply
  confirm-changes now seq hc = elim (Bool-cases (hc.seq == seq)) [
    | inl h ↦ rw h (elim (confirm-some (now - hc.send_time) _) [
      | inl kept ↦ inl kept
      | inr (changed, e) ↦ inr (changed, ground (arith, h), e)
    ])
    | inr h ↦ rw h (inl refl)
  ]

module _ (config : UdpConfig) (is_server through : SocketAddr → Bool) (now : ℕ)
    (peer_addr : SocketAddr) (from_addr seq : ℕ) where
  -- The server's status after a response: as before, or the address that the response came from,
  -- which is the server's, and the response is to the last heartbeat.
  pub data KeepsServer {Net : Type 0} (inter after : Interface Net) : Type 0 where
    server_kept : after.server_udp_status ≡ inter.server_udp_status → KeepsServer inter after
    server_proven :
        from_addr ≡ server_virtual_addr
        → after.server_udp_status ≡ available peer_addr
        → inter.server_udp_hc.seq ≡ seq
        → is_server peer_addr ≡ true
        → KeepsServer inter after

  -- A node's status: as before, or from unavailable the address that the response came from, which
  -- is in reply to the last heartbeat and the last of enough replies in a row.
  pub data KeepsNode {Net : Type 0} : ExtendedNode Net → ExtendedNode Net → Type 0 where
    status_kept : {n n' : ExtendedNode Net} → n'.udp_status ≡ n.udp_status → KeepsNode n n'
    status_proven :
        {n n' : ExtendedNode Net}
        → is_available n.udp_status ≡ false
        → n'.udp_status ≡ available peer_addr
        → n.hc.seq ≡ seq
        → config.udp_heartbeat_continuous_recv ≤ n'.hc.packet_continuous_recv_count
        → (config.has_bind_device || not (through peer_addr)) ≡ true
        → KeepsNode n n'

  -- What the list has for an address.
  pub data KeepsEntry {Net : Type 0} (a : ℕ) (before after : Option (ExtendedNode Net))
      : Type 0 where
    entry_kept : after ≡ before → KeepsEntry a before after
    entry_changed :
        {n n' : ExtendedNode Net}
        → a ≡ from_addr
        → before ≡ some n
        → after ≡ some n'
        → KeepsNode n n'
        → KeepsEntry a before after

  server_path-changes :
      (status : UdpStatus SocketAddr) (hc : HeartbeatCache)
      → let after = (server_path config is_server through now peer_addr seq status hc).status in
        (after ≡ status)
        ⊎ ((after ≡ available peer_addr) × (hc.seq ≡ seq) × (is_server peer_addr ≡ true))
  unfolding server_path
  server_path-changes (available dst_addr) hc = elim (Bool-cases (same_addr dst_addr peer_addr)) [
    | inl same ↦ rw same (inl refl)
    | inr other ↦ rw other (elim (Bool-cases (is_server peer_addr)) [
      | inl h ↦ rw h (elim (confirm-changes (λ _. true) peer_addr (available dst_addr) now seq hc) [
        | inl kept ↦ inl kept
        | inr (changed, e, t) ↦ inr (changed, e, refl)
      ])
      | inr h ↦ rw h (inl refl)
    ])
  ]
  server_path-changes unavailable hc = elim (Bool-cases (is_server peer_addr)) [
    | inl h ↦
        rw h
          (elim (confirm-changes (has_enough config is_server through now) peer_addr unavailable now
            seq hc) [ inl kept ↦ inl kept | inr (changed, e, t) ↦ inr (changed, e, refl) ])
    | inr h ↦ rw h (inl refl)
  ]

  node_resp-KeepsNode :
      {Net : Type 0} (n : ExtendedNode Net)
      → KeepsNode n (node_resp config is_server through now peer_addr seq n)
  unfolding node_resp
  node_resp-KeepsNode n =
      elim (confirm-changes (opens config is_server through now peer_addr n.udp_status) peer_addr
        n.udp_status now seq n.hc) [
          | inl kept ↦ status_kept kept
          | inr (changed, e, enough) ↦
              status_proven (ground (arith, enough)) changed e
                (rw
                  (confirm-cache (opens config is_server through now peer_addr n.udp_status)
                    peer_addr n.udp_status (reply now seq n.hc))
                  (ground (arith, enough)))
                (ground (arith, enough))
        ]

  response-KeepsServer :
      {Net : Type 0} (inter : Interface Net)
      → KeepsServer inter (response config is_server through now from_addr peer_addr seq inter)
  unfolding response
  response-KeepsServer inter = elim (Bool-cases (from_addr == server_virtual_addr)) [
    | inl h ↦ rw h (elim (server_path-changes inter.server_udp_status inter.server_udp_hc) [
      | inl kept ↦ server_kept kept
      | inr (changed, e, t) ↦ server_proven (ground (arith, h)) changed e t
    ])
    | inr h ↦ rw h (elim (Bool-cases (is_p2p inter)) [
      | inl p ↦ rw p (server_kept refl)
      | inr p ↦ rw p (server_kept refl)
    ])
  ]

  mapped-KeepsEntry :
      {Net : Type 0} (a : ℕ) (o : Option (ExtendedNode Net))
      → a ≡ from_addr
      → KeepsEntry a o (mapped (node_resp config is_server through now peer_addr seq) o)
  mapped-KeepsEntry a none e = entry_kept refl
  mapped-KeepsEntry a (some n) e = entry_changed e refl refl (node_resp-KeepsNode n)

  modify_node-KeepsEntry :
      {Net : Type 0} (a : ℕ) (l : NodeList Net)
      → KeepsEntry a (get_node a l) (
          get_node a
            (modify_node from_addr (node_resp config is_server through now peer_addr seq) l))
  unfolding node_resp
  modify_node-KeepsEntry a l = elim (ℕ_discrete a from_addr) [
    | yes e ↦
        rw
          (
            e,
            get_node-modify_node from_addr (node_resp config is_server through now peer_addr seq) l
                (λ n. refl),
          )
          (mapped-KeepsEntry from_addr (get_node from_addr l) refl)
    | no other ↦ entry_kept (
        get_node-modify_other a from_addr (node_resp config is_server through now peer_addr seq) l
          (λ n. refl) other)
  ]

  -- A response makes the server's path available, or moves it to another address, only if it answers
  -- the last heartbeat to the server and comes from the server's address. In the list, it changes
  -- no entry but its sender's, and makes that node's path available only where it was not, it
  -- answers the last heartbeat to the node, as many were answered in a row as it takes, and the way to
  -- the address does not lead through the node's own network, if the socket is not bound to a device.
  pub response-IsTrusted :
      {Net : Type 0} (inter : Interface Net) (a : ℕ)
      → let after = response config is_server through now from_addr peer_addr seq inter in
        KeepsServer inter after
        × KeepsEntry a (get_node a inter.node_list) (get_node a after.node_list)
  unfolding response
  response-IsTrusted inter a = (
    response-KeepsServer inter,
    elim (Bool-cases (from_addr == server_virtual_addr)) [
      | inl h ↦ rw h (entry_kept refl)
      | inr h ↦ rw h (elim (Bool-cases (is_p2p inter)) [
        | inl p ↦ rw p (modify_node-KeepsEntry a inter.node_list)
        | inr p ↦ rw p (entry_kept refl)
      ])
    ],
  )
