-- ===== src/Server/Beats/Silent.antt =====
-- A node that does not answer the server's heartbeats (src/server/mod.rs).
use fubuki_test.Base.{
  ℕ, suc, ◌+◌, ◌≤◌, ◌<◌, ◌^◌, ◌≡◌, ◌≢◌, refl, ap, ◌∙◌, subst, Bool, true, false, some, List, [],
  ◌∷◌, All, arith,
}
use fubuki_test.Ipnet.{IpNet}
use fubuki_test.Protocol.{SocketAddr, UdpMsg, req, resp, NetProtocols, tcp, udp}
use fubuki_test.Heartbeat.{unavailable}
use fubuki_test.Heartbeat.Liveness.{IsWaiting}
use fubuki_test.Flow.{FlowControl, PushResult, accept, reject}
use fubuki_test.Server.{NodeHandle, GroupHandle}
use fubuki_test.Server.Relay.{
  Sent, over_tcp, over_udp, nowhere, choose, relay_to, after_push, relay, receive,
}
use fubuki_test.Server.Beats.{beat, GroupEvent, passes, receives, after, after_all}
use fubuki_test.Server.Beats.Losing.{IsLosing, occurs, same_entry, beat-IsLosing}
use fubuki_test.Server.Beats.Messages.{request-IsLosing, response-other, relay-mapping}

abbrev pub passes_of : List GroupEvent → ℕ
passes_of [] = 0
passes_of (passes now keys ∷ es) = suc (passes_of es)
passes_of (receives c n a h p m ∷ es) = passes_of es

-- An event without an answer of the node: each pass has the node's key once, as the mapping has.
abbrev pub IsSilent : (a : ℕ) → GroupEvent → Type 0
IsSilent a (passes now keys) = occurs a keys ≡ 1
IsSilent a (receives clock now allow has_room peer_addr (UdpMsg.heartbeat dst seq req)) = Unit
IsSilent a (receives clock now allow has_room peer_addr (UdpMsg.heartbeat dst seq resp)) = dst ≢ a
IsSilent a (receives clock now allow has_room peer_addr (UdpMsg.relay dst content)) = Unit
IsSilent a (receives clock now allow has_room peer_addr (UdpMsg.payload content)) = Unit

module _ {Net : Type 0} (ip : IpNet Net) (limit a : ℕ) where
  no_pass :
      (losses : ℕ) (g : GroupHandle Net)
      → IsLosing limit a losses g
      → IsLosing limit a (losses + 0) g
  no_pass losses g h =
      let e : losses ≡ losses + 0 = omega arith in subst (λ n. IsLosing limit a n g) e h

  after-IsLosing :
      (recv losses : ℕ) (e : GroupEvent) (group : GroupHandle Net)
      → losses + passes_of (e ∷ []) < 2 ^ 64
      → IsSilent a e
      → IsLosing limit a losses group
      → IsLosing limit a (losses + passes_of (e ∷ [])) (after ip limit recv e group)
  unfolding after receive
  after-IsLosing recv losses (passes now keys) group b q h =
      subst (λ n. IsLosing limit a n (beat limit now keys group).1) (omega arith)
        (beat-IsLosing limit a now losses keys group (omega (arith, b)) q h)
  after-IsLosing recv losses (receives c n allow room peer (UdpMsg.heartbeat dst seq req)) group b q
        h =
      no_pass losses _
        (request-IsLosing ip limit a losses dst peer (group.mapping dst) group refl h)
  after-IsLosing recv losses (receives c n allow room peer (UdpMsg.heartbeat dst seq resp)) group b
        q h =
      no_pass losses _ (
        same_entry limit a group _
          (response-other ip limit a recv c dst seq peer (group.mapping dst) group q) h)
  after-IsLosing recv losses (receives c n allow room peer (UdpMsg.relay dst content)) group b q h =
      no_pass losses _
        (same_entry limit a group _ (relay-mapping ip limit a allow room n dst content group) h)
  after-IsLosing recv losses (receives c n allow room peer (UdpMsg.payload content)) group b q h =
      no_pass losses group h

  after_all-IsLosing :
      (recv losses : ℕ) (es : List GroupEvent) (group : GroupHandle Net)
      → losses + passes_of es < 2 ^ 64
      → All (IsSilent a) es
      → IsLosing limit a losses group
      → IsLosing limit a (losses + passes_of es) (after_all ip limit recv es group)
  unfolding after_all
  after_all-IsLosing recv losses [] group b q h = no_pass losses group h
  after_all-IsLosing recv losses (passes now keys ∷ es) group b (q, qs) h =
      let next = after ip limit recv (passes now keys) group in
      let one : IsLosing limit a (losses + 1) next =
        after-IsLosing recv losses (passes now keys) group (omega arith) q h in
      subst (λ n. IsLosing limit a n (after_all ip limit recv es next)) (omega arith)
        (after_all-IsLosing recv (losses + 1) es next (omega arith) qs one)
  after_all-IsLosing recv losses (receives c n allow room peer msg ∷ es) group b (q, qs) h =
      let next = after ip limit recv (receives c n allow room peer msg) group in
      let none_lost : IsLosing limit a (losses + 0) next =
        after-IsLosing recv losses (receives c n allow room peer msg) group (omega (arith, b)) q
          h in
      after_all-IsLosing recv losses es next b qs (
        let e : losses + 0 ≡ losses = omega arith in
        subst (λ k. IsLosing limit a k next) e none_lost)

abbrev pub is_over_udp : Sent → Bool
is_over_udp over_tcp = false
is_over_udp (over_udp addr) = true
is_over_udp nowhere = false

choose-unavailable :
    (has_room : Bool) (ps : NetProtocols) → is_over_udp (choose has_room unavailable ps) ≡ false
unfolding choose
choose-unavailable has_room [] = refl
choose-unavailable has_room (tcp ∷ ps) = ground (arith, choose-unavailable has_room ps)
choose-unavailable has_room (udp ∷ ps) = choose-unavailable has_room ps

relay_to-unavailable :
    {Net : Type 0} (ip : IpNet Net) (has_room : Bool) (h : NodeHandle Net)
    → h.udp.status ≡ unavailable
    → is_over_udp (relay_to ip has_room (some h)) ≡ false
relay_to-unavailable ip has_room h e =
    ap (λ s. is_over_udp (choose has_room s h.node.mode.relay)) e
    ∙ choose-unavailable has_room h.node.mode.relay

relay-unavailable :
    {Net : Type 0} (ip : IpNet Net) (a : ℕ) (allow has_room : Bool) (now : ℕ) (content : List ℕ)
    (group : GroupHandle Net) (h : NodeHandle Net)
    → group.mapping a ≡ some h
    → h.udp.status ≡ unavailable
    → is_over_udp (relay ip allow has_room now a content group).0 ≡ false
unfolding relay
relay-unavailable ip a false has_room now content group h here e = refl
relay-unavailable ip a true has_room now content group h here e = by_push _
  where
    by_push :
        (r : PushResult × FlowControl _) → is_over_udp (after_push ip has_room a group r).0 ≡ false
    by_push (reject, fc) = refl
    by_push (accept, fc) =
        ap (λ o. is_over_udp (relay_to ip has_room o)) here ∙ relay_to-unavailable ip has_room h e

-- A node of the group that has an address and an unanswered heartbeat on its way, with no losses
-- counted, and that does not answer while the schedule makes at least as many passes as there is a
-- limit on losses in a row, fewer than 2^64: whatever else is received in between, its UDP path is
-- then unavailable, and content for it is not relayed over UDP.
pub silent-relay :
    {Net : Type 0} (ip : IpNet Net) (limit recv a : ℕ) (es : List GroupEvent)
    (group : GroupHandle Net) (handle : NodeHandle Net) (wan : SocketAddr) (allow has_room : Bool)
    (now : ℕ) (content : List ℕ)
    → group.mapping a ≡ some handle
    → handle.node.wan_udp_addr ≡ some wan
    → IsWaiting 0 handle.udp
    → 0 < limit
    → All (IsSilent a) es
    → limit ≤ passes_of es
    → passes_of es < 2 ^ 64
    → (last : NodeHandle Net) × ((after_all ip limit recv es group).mapping a ≡ some last)
      × (last.udp.status ≡ unavailable)
      × (is_over_udp (relay ip allow has_room now a content (after_all ip limit recv es group)).0
          ≡ false)
silent-relay ip limit recv a es group handle wan allow has_room now content here has_wan waiting pos
      silent enough small =
    let start : IsLosing limit a 0 group = record {
      handle = handle;
      here = here;
      wan = wan;
      has_wan = has_wan;
      waiting = waiting;
      lapsed = λ le. absurd (omega (arith, le, pos));
    } in
    let h = after_all-IsLosing ip limit a recv 0 es group (omega (arith, small)) silent start in
    let gone = h.lapsed (omega (arith, enough)) in
    (
      h.handle,
      h.here,
      gone,
      relay-unavailable ip a allow has_room now content (after_all ip limit recv es group) h.handle
          h.here gone,
    )
