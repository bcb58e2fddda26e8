-- ===== src/Server/Exec/Peers/Kept.antt =====
-- The changes of a group that keep what its nodes uploaded (src/server/mod.rs).
use fubuki_test.Base.{
  ℕ, ◌≡◌, refl, sym, ap, ◌∙◌, Bool, true, false, Bool-cases, inl, inr, Option, none, some, List,
  ◌==◌, arith, length, unsome, none-absurd,
}
use fubuki_test.Ipnet.{IpNet}
use fubuki_test.Flow.{FlowControl, PushResult, accept, reject, push}
use fubuki_test.Protocol.{PeerStatus, SocketAddr, UdpMsg, req, resp}
use fubuki_test.Server.{with_entry, NodeHandle, GroupHandle, sync}
use fubuki_test.Server.Relay as Relay
use fubuki_test.Server.Relay.{receive}
use fubuki_test.Server.Exec.{fresh, fresh_of, change_handle, with_handle}

module _ {Net : Type 0} where
  abbrev pub status_of : Option (NodeHandle Net) → Option (Option (List PeerStatus × ℕ))
  status_of none = none
  status_of (some h) = some h.peers_status

  -- The mapping has a node at the address, with this status of its peers.
  abbrev pub HasPeers : (a : ℕ) → Option (List PeerStatus × ℕ) → GroupHandle Net → Type 0
  HasPeers a v group = status_of (group.mapping a) ≡ some v

  pub entry-HasPeers :
      (a own : ℕ) (v : Option (List PeerStatus × ℕ)) (new : NodeHandle Net)
      (group : GroupHandle Net)
      → (own ≡ a → new.peers_status ≡ v)
      → HasPeers a v group
      → status_of (with_entry own new group.mapping a) ≡ some v
  entry-HasPeers a own v new group keeps m = elim (Bool-cases (a == own)) [
    | inl same ↦ rw same (ap some (keeps (ground (arith, same))))
    | inr other ↦ rw other m
  ]

  -- A change of one handle that keeps the status.
  pub kept_status :
      (a own : ℕ) (v : Option (List PeerStatus × ℕ)) (h new : NodeHandle Net)
      (group : GroupHandle Net)
      → group.mapping own ≡ some h
      → (own ≡ a → h.peers_status ≡ v → new.peers_status ≡ v)
      → HasPeers a v group
      → status_of (with_entry own new group.mapping a) ≡ some v
  kept_status a own v h new group e keeps m =
      entry-HasPeers a own v new group
        (λ same.
          keeps same
            (unsome (ap status_of (sym e) ∙ ap (λ x. status_of (group.mapping x)) same ∙ m)))
        m

  pub changed-HasPeers :
      (a own : ℕ) (v : Option (List PeerStatus × ℕ)) (f : NodeHandle Net → NodeHandle Net)
      (group : GroupHandle Net) (o : Option (NodeHandle Net))
      → group.mapping own ≡ o
      → ((h : NodeHandle Net) → own ≡ a → h.peers_status ≡ v → (f h).peers_status ≡ v)
      → HasPeers a v group
      → HasPeers a v (change_handle own f o group)
  changed-HasPeers a own v f group none e keeps m = m
  changed-HasPeers a own v f group (some h) e keeps m =
      kept_status a own v h (f h) group e (keeps h) m

  pub with_handle-HasPeers :
      (a own : ℕ) (v : Option (List PeerStatus × ℕ)) (f : NodeHandle Net → NodeHandle Net)
      (group : GroupHandle Net)
      → ((h : NodeHandle Net) → own ≡ a → h.peers_status ≡ v → (f h).peers_status ≡ v)
      → HasPeers a v group
      → HasPeers a v (with_handle own f group)
  unfolding with_handle
  with_handle-HasPeers a own v f group keeps m =
      changed-HasPeers a own v f group (group.mapping own) refl keeps m

  -- The status that a node has just uploaded.
  pub uploaded-HasPeers :
      (own : ℕ) (v : Option (List PeerStatus × ℕ)) (h : NodeHandle Net) (group : GroupHandle Net)
      (o : Option (NodeHandle Net))
      → o ≡ some h
      → HasPeers own v (change_handle own (λ x. record x { peers_status = v }) o group)
  uploaded-HasPeers own v h group none e = none-absurd e
  uploaded-HasPeers own v h group (some k) e =
      let self : (own == own) ≡ true = ground arith in rw self refl

  pub HasPeers-fetched :
      (clock a : ℕ) (v : Option (List PeerStatus × ℕ)) (o : Option (NodeHandle Net))
      → status_of o ≡ some v
      → fresh_of clock o ≡ fresh clock v
  HasPeers-fetched clock a v none m = none-absurd m
  HasPeers-fetched clock a v (some h) m = ap (fresh clock) (unsome m)

module _ {Net : Type 0} (ip : IpNet Net) (a : ℕ) (v : Option (List PeerStatus × ℕ)) where
  pub pushed-HasPeers :
      (has_room : Bool) (dst : ℕ) (group : GroupHandle Net) (r : PushResult × FlowControl Net)
      → HasPeers a v group
      → HasPeers a v (Relay.after_push ip has_room dst group r).1
  pushed-HasPeers has_room dst group (reject, fc) m = m
  pushed-HasPeers has_room dst group (accept, fc) m = m

  pub relay-HasPeers :
      (allow has_room : Bool) (now dst : ℕ) (content : List ℕ) (group : GroupHandle Net)
      → HasPeers a v group
      → HasPeers a v (Relay.relay ip allow has_room now dst content group).1
  unfolding Relay.relay
  relay-HasPeers false has_room now dst content group m = m
  relay-HasPeers true has_room now dst content group m =
      pushed-HasPeers has_room dst group (push ip now dst (length content) group.flow_control) m

  pub learn-HasPeers :
      (known : Bool) (dst : ℕ) (peer_addr : SocketAddr) (h : NodeHandle Net)
      (group : GroupHandle Net)
      → group.mapping dst ≡ some h
      → HasPeers a v group
      → HasPeers a v (Relay.learn ip known dst peer_addr h group)
  unfolding sync
  learn-HasPeers true dst peer_addr h group e m = m
  learn-HasPeers false dst peer_addr h group e m = kept_status a dst v h _ group e (λ same p. p) m

  pub request-HasPeers :
      (dst : ℕ) (peer_addr : SocketAddr) (o : Option (NodeHandle Net)) (group : GroupHandle Net)
      → group.mapping dst ≡ o
      → HasPeers a v group
      → HasPeers a v (Relay.request ip dst peer_addr o group).1
  request-HasPeers dst peer_addr none group e m = m
  request-HasPeers dst peer_addr (some h) group e m =
      learn-HasPeers (Relay.same_address ip h.node.wan_udp_addr peer_addr) dst peer_addr h group e m

  pub response-HasPeers :
      (recv now dst seq : ℕ) (peer_addr : SocketAddr) (o : Option (NodeHandle Net))
      (group : GroupHandle Net)
      → group.mapping dst ≡ o
      → HasPeers a v group
      → HasPeers a v (Relay.response ip recv now dst seq peer_addr o group)
  response-HasPeers recv now dst seq peer_addr none group e m = m
  response-HasPeers recv now dst seq peer_addr (some h) group e m =
      kept_status a dst v h _ group e (λ same p. p) m

  pub receive-HasPeers :
      (recv clock now : ℕ) (allow has_room : Bool) (peer_addr : SocketAddr) (msg : UdpMsg)
      (group : GroupHandle Net)
      → HasPeers a v group
      → HasPeers a v (receive ip recv clock now allow has_room peer_addr msg group).1
  unfolding receive
  receive-HasPeers recv clock now allow has_room peer_addr (UdpMsg.heartbeat dst seq req) group m =
      request-HasPeers dst peer_addr (group.mapping dst) group refl m
  receive-HasPeers recv clock now allow has_room peer_addr (UdpMsg.heartbeat dst seq resp) group m =
      response-HasPeers recv clock dst seq peer_addr (group.mapping dst) group refl m
  receive-HasPeers recv clock now allow has_room peer_addr (UdpMsg.relay dst content) group m =
      relay-HasPeers allow has_room now dst content group m
  receive-HasPeers recv clock now allow has_room peer_addr (UdpMsg.payload content) group m = m
