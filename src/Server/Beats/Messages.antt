-- ===== src/Server/Beats/Messages.antt =====
-- The messages that do not touch the path of a node (src/server/mod.rs: `udp_handler`).
use fubuki_test.Base.{
  ℕ, ◌≡◌, ◌≢◌, refl, sym, ap, ◌∙◌, subst, Bool, true, false, Bool-cases, inl, inr, Option, none,
  some, unsome, List, ℕ_discrete,
}
use fubuki_test.Ipnet.{IpNet}
use fubuki_test.Protocol.{SocketAddr}
use fubuki_test.Flow.{FlowControl, PushResult, accept, reject}
use fubuki_test.Server.{with_entry, NodeHandle, GroupHandle, sync}
use fubuki_test.Server.Relay.{after_push, relay, same_address, learn, request, response}
use fubuki_test.Server.Beats.Losing.{IsLosing, same_entry, own_entry, other_entry, same_path}

module _ {Net : Type 0} (ip : IpNet Net) (limit a : ℕ) where
  -- A new address of a node does not touch its path.
  learn-IsLosing :
      (losses dst : ℕ) (peer_addr : SocketAddr) (handle : NodeHandle Net) (group : GroupHandle Net)
      (known : Bool)
      → group.mapping dst ≡ some handle
      → IsLosing limit a losses group
      → IsLosing limit a losses (learn ip known dst peer_addr handle group)
  unfolding sync
  learn-IsLosing losses dst peer_addr handle group true e h = h
  learn-IsLosing losses dst peer_addr handle group false e h =
      let moved : NodeHandle Net = record handle {
        node = record handle.node { wan_udp_addr = some peer_addr };
      } in
      let g = learn ip false dst peer_addr handle group in
      elim (ℕ_discrete dst a) [
        | yes own ↦
            same_path limit a group g h moved peer_addr
              (subst (λ k. with_entry k moved group.mapping a ≡ some moved) (sym own)
                (own_entry limit a moved group.mapping))
              refl
              (ap (λ x. x.udp)
                (unsome (sym (subst (λ k. group.mapping k ≡ some handle) own e) ∙ h.here)))
        | no other ↦
            same_entry limit a group g (other_entry limit a dst moved group.mapping other) h
      ]

  pub request-IsLosing :
      (losses dst : ℕ) (peer_addr : SocketAddr) (o : Option (NodeHandle Net))
      (group : GroupHandle Net)
      → group.mapping dst ≡ o
      → IsLosing limit a losses group
      → IsLosing limit a losses (request ip dst peer_addr o group).1
  request-IsLosing losses dst peer_addr none group e h = h
  request-IsLosing losses dst peer_addr (some handle) group e h =
      learn-IsLosing losses dst peer_addr handle group
        (same_address ip handle.node.wan_udp_addr peer_addr) e h

  pub response-other :
      (recv now dst seq : ℕ) (peer_addr : SocketAddr) (o : Option (NodeHandle Net))
      (group : GroupHandle Net)
      → dst ≢ a
      → (response ip recv now dst seq peer_addr o group).mapping a ≡ group.mapping a
  response-other recv now dst seq peer_addr none group other = refl
  response-other recv now dst seq peer_addr (some handle) group other =
      other_entry limit a dst _ group.mapping other

  after_push-mapping :
      (has_room : Bool) (dst : ℕ) (group : GroupHandle Net) (r : PushResult × FlowControl Net)
      → (after_push ip has_room dst group r).1.mapping a ≡ group.mapping a
  after_push-mapping has_room dst group (reject, fc) = refl
  after_push-mapping has_room dst group (accept, fc) = refl

  pub relay-mapping :
      (allow has_room : Bool) (now dst : ℕ) (content : List ℕ) (group : GroupHandle Net)
      → (relay ip allow has_room now dst content group).1.mapping a ≡ group.mapping a
  unfolding relay
  relay-mapping allow has_room now dst content group = elim (Bool-cases allow) [
    | inl yes_allowed ↦ rw yes_allowed (after_push-mapping has_room dst group _)
    | inr refused ↦ rw refused refl
  ]
