-- ===== src/Server/Relay.antt =====
-- The UDP side of a group (src/server/mod.rs: `udp_handler`) and the relay of TCP messages
-- (`Tunnel::exec`): what a message does to the group and what is sent on.
use fubuki_test.Base.{
  ℕ, ◌≡◌, refl, ap, ◌∙◌, Bool, true, false, Bool-cases, inl, inr, Option, none, some, List, [], ◌∷◌,
  length, ◌==◌, ==_iff, ◌&&◌, if◌then◌else◌, arith,
}
use fubuki_test.Ipnet.{IpNet}
use fubuki_test.Protocol.{
  NetProtocol, NetProtocols, tcp, udp, contains, SocketAddr, UdpMsg, req, resp,
}
use fubuki_test.Heartbeat.{UdpStatus, available, unavailable, receive_resp}
use fubuki_test.Flow.{FlowControl, PushResult, accept, reject, push}
use fubuki_test.Server.{with_entry, NodeHandle, GroupHandle, sync, node_of}

-- Where relayed content goes.
pub data Sent : Type 0 where
  over_tcp : Sent
  over_udp : SocketAddr → Sent
  nowhere : Sent

-- The loop over the node's relay protocols; `has_room` is whether `try_send` on its channel succeeds.
unfoldable pub choose : (has_room : Bool) → UdpStatus SocketAddr → NetProtocols → Sent
choose has_room status [] = nowhere
choose has_room status (tcp ∷ ps) =
    let rest = choose has_room status ps in if has_room then over_tcp else rest
choose has_room (available dst_addr) (udp ∷ ps) = over_udp dst_addr
choose has_room unavailable (udp ∷ ps) = choose has_room unavailable ps

module _ {Net : Type 0} (ip : IpNet Net) where
  abbrev pub relay_to : (has_room : Bool) → Option (NodeHandle Net) → Sent
  relay_to has_room none = nowhere
  relay_to has_room (some handle) = choose has_room handle.udp.status handle.node.mode.relay

  abbrev pub after_push :
      (has_room : Bool) (dst_virt_addr : ℕ)
      → GroupHandle Net
      → PushResult × FlowControl Net
      → Sent × GroupHandle Net
  after_push has_room dst_virt_addr group (reject, fc) =
      (nowhere, record group { flow_control = fc })
  after_push has_room dst_virt_addr group (accept, fc) =
      (relay_to has_room (group.mapping dst_virt_addr), record group { flow_control = fc })

  -- A relay message; `allow` is the group's `allow_udp_relay` or `allow_tcp_relay`.
  unfoldable pub relay :
      (allow has_room : Bool) (now dst_virt_addr : ℕ)
      → List ℕ
      → GroupHandle Net
      → Sent × GroupHandle Net
  relay allow has_room now dst_virt_addr content group =
      if allow
      then after_push has_room dst_virt_addr group
          (push ip now dst_virt_addr (length content) group.flow_control)
      else (nowhere, group)

  abbrev pub same_address : Option SocketAddr → SocketAddr → Bool
  same_address none b = false
  same_address (some a) b = a.ip == b.ip && a.port == b.port

  -- The node's address as the handler stores it, given whether it knew it.
  abbrev pub learn :
      (known : Bool) (dst_virt_addr : ℕ) (peer_addr : SocketAddr)
      → NodeHandle Net
      → GroupHandle Net
      → GroupHandle Net
  learn true dst_virt_addr peer_addr handle group = group
  learn false dst_virt_addr peer_addr handle group =
      let node = record handle.node { wan_udp_addr = some peer_addr } in
      sync (record group {
        mapping = with_entry dst_virt_addr (record handle { node = node }) group.mapping;
      })

  abbrev pub request :
      (dst_virt_addr : ℕ) (peer_addr : SocketAddr)
      → Option (NodeHandle Net)
      → GroupHandle Net
      → Bool × GroupHandle Net
  request dst_virt_addr peer_addr none group = (false, group)
  request dst_virt_addr peer_addr (some handle) group = (
    true,
    learn (same_address handle.node.wan_udp_addr peer_addr) dst_virt_addr peer_addr handle group,
  )

  abbrev pub response :
      (recv now dst_virt_addr seq : ℕ) (peer_addr : SocketAddr)
      → Option (NodeHandle Net)
      → GroupHandle Net
      → GroupHandle Net
  response recv now dst_virt_addr seq peer_addr none group = group
  response recv now dst_virt_addr seq peer_addr (some handle) group = record group {
    mapping =
        with_entry dst_virt_addr
          (record handle { udp = receive_resp recv now peer_addr seq handle.udp }) group.mapping;
  }

  -- What a message makes the handler send: the response to a heartbeat, or relayed content.
  pub data Reply : Type 0 where
    heartbeat_resp : (seq : ℕ) → Reply
    relayed : Sent → Reply
    no_reply : Reply

  abbrev pub reply_if : Bool → ℕ → Reply
  reply_if true seq = heartbeat_resp seq
  reply_if false seq = no_reply

  -- A pass of the receiving loop of `udp_handler`: `clock` is the monotonic clock that heartbeats
  -- are timed with and `now` the second that traffic is counted in.
  unfoldable pub receive :
      (recv clock now : ℕ) (allow_udp_relay has_room : Bool) (peer_addr : SocketAddr)
      → UdpMsg
      → GroupHandle Net
      → Reply × GroupHandle Net
  receive recv clock now allow has_room peer_addr (UdpMsg.heartbeat dst seq req) group =
      let (is_known, group') = request dst peer_addr (group.mapping dst) group in
      (reply_if is_known seq, group')
  receive recv clock now allow has_room peer_addr (UdpMsg.heartbeat dst seq resp) group =
      (no_reply, response recv clock dst seq peer_addr (group.mapping dst) group)
  receive recv clock now allow has_room peer_addr (UdpMsg.relay dst content) group =
      let (sent, group') = relay allow has_room now dst content group in (relayed sent, group')
  receive recv clock now allow has_room peer_addr (UdpMsg.payload content) group = (no_reply, group)

-- Content for an address goes nowhere, or to a node that the mapping has for it: over TCP where that
-- is among the node's relay protocols, over UDP only to the address of an available status.
pub data IsRelayed {Net : Type 0} (group : GroupHandle Net) (dst : ℕ) : Sent → Type 0 where
  dropped : IsRelayed group dst nowhere
  by_tcp :
      {h : NodeHandle Net}
      → group.mapping dst ≡ some h
      → contains h.node.mode.relay tcp ≡ true
      → IsRelayed group dst over_tcp
  by_udp :
      {h : NodeHandle Net} {a : SocketAddr}
      → group.mapping dst ≡ some h
      → contains h.node.mode.relay udp ≡ true
      → h.udp.status ≡ available a
      → IsRelayed group dst (over_udp a)

-- A choice among protocols is one of them, and over UDP it takes an available status.
data IsChoice (status : UdpStatus SocketAddr) (ps : NetProtocols) : Sent → Type 0 where
  none_fits : IsChoice status ps nowhere
  tcp_fits : contains ps tcp ≡ true → IsChoice status ps over_tcp
  udp_fits :
      {a : SocketAddr}
      → contains ps udp ≡ true
      → status ≡ available a
      → IsChoice status ps (over_udp a)

longer :
    (p : NetProtocol) (status : UdpStatus SocketAddr) (ps : NetProtocols) (sent : Sent)
    → IsChoice status ps sent
    → IsChoice status (p ∷ ps) sent
longer p status ps sent none_fits = none_fits
longer p status ps sent (tcp_fits h) = tcp_fits (ground (arith, h))
longer p status ps sent (udp_fits h e) = udp_fits (ground (arith, h)) e

choose-IsChoice :
    (has_room : Bool) (status : UdpStatus SocketAddr) (ps : NetProtocols)
    → IsChoice status ps (choose has_room status ps)
unfolding choose
choose-IsChoice has_room status [] = none_fits
choose-IsChoice true status (tcp ∷ ps) = tcp_fits refl
choose-IsChoice false status (tcp ∷ ps) =
    longer tcp status ps (choose false status ps) (choose-IsChoice false status ps)
choose-IsChoice has_room (available a) (udp ∷ ps) = udp_fits refl refl
choose-IsChoice has_room unavailable (udp ∷ ps) =
    longer udp unavailable ps (choose has_room unavailable ps)
      (choose-IsChoice has_room unavailable ps)

choice-IsRelayed :
    {Net : Type 0} (group : GroupHandle Net) (dst : ℕ) (h : NodeHandle Net) (sent : Sent)
    → group.mapping dst ≡ some h
    → IsChoice h.udp.status h.node.mode.relay sent
    → IsRelayed group dst sent
choice-IsRelayed group dst h sent e none_fits = dropped
choice-IsRelayed group dst h sent e (tcp_fits c) = by_tcp e c
choice-IsRelayed group dst h sent e (udp_fits c a) = by_udp e c a

-- The nodes last sent are those of the mapping.
pub record IsWatched {Net : Type 0} (group : GroupHandle Net) : Type 0 where
  pub watched : (a : ℕ) → group.watch a ≡ node_of (group.mapping a)

module _ {Net : Type 0} (ip : IpNet Net) where
  relay_to-IsRelayed :
      (has_room : Bool) (group : GroupHandle Net) (dst : ℕ) (o : Option (NodeHandle Net))
      → group.mapping dst ≡ o
      → IsRelayed group dst (relay_to ip has_room o)
  relay_to-IsRelayed has_room group dst none e = dropped
  relay_to-IsRelayed has_room group dst (some h) e =
      choice-IsRelayed group dst h (choose has_room h.udp.status h.node.mode.relay) e
        (choose-IsChoice has_room h.udp.status h.node.mode.relay)

  pushed-IsRelayed :
      (has_room : Bool) (group : GroupHandle Net) (dst : ℕ) (r : PushResult × FlowControl Net)
      → IsRelayed group dst (after_push ip has_room dst group r).0
  pushed-IsRelayed has_room group dst (reject, fc) = dropped
  pushed-IsRelayed has_room group dst (accept, fc) =
      relay_to-IsRelayed has_room group dst (group.mapping dst) refl

  -- Relayed content goes nowhere or to the node that the mapping has for its address: over TCP only
  -- if TCP is among that node's relay protocols, and over UDP only if UDP is and to the address of
  -- its available status.
  pub relay-IsRelayed :
      (allow has_room : Bool) (now dst : ℕ) (content : List ℕ) (group : GroupHandle Net)
      → IsRelayed group dst (relay ip allow has_room now dst content group).0
  unfolding relay
  relay-IsRelayed false has_room now dst content group = dropped
  relay-IsRelayed true has_room now dst content group =
      pushed-IsRelayed has_room group dst (push ip now dst (length content) group.flow_control)

  learn-IsWatched :
      (known : Bool) (dst : ℕ) (peer_addr : SocketAddr) (h : NodeHandle Net)
      (group : GroupHandle Net)
      → IsWatched group
      → IsWatched (learn ip known dst peer_addr h group)
  unfolding sync
  learn-IsWatched true dst peer_addr h group w = w
  learn-IsWatched false dst peer_addr h group w = record { watched = λ a. refl }

  request-IsWatched :
      (dst : ℕ) (peer_addr : SocketAddr) (o : Option (NodeHandle Net)) (group : GroupHandle Net)
      → IsWatched group
      → IsWatched (request ip dst peer_addr o group).1
  request-IsWatched dst peer_addr none group w = w
  request-IsWatched dst peer_addr (some h) group w =
      learn-IsWatched (same_address ip h.node.wan_udp_addr peer_addr) dst peer_addr h group w

  response-IsWatched :
      (recv now dst seq : ℕ) (peer_addr : SocketAddr) (o : Option (NodeHandle Net))
      (group : GroupHandle Net)
      → group.mapping dst ≡ o
      → IsWatched group
      → IsWatched (response ip recv now dst seq peer_addr o group)
  response-IsWatched recv now dst seq peer_addr none group e w = w
  response-IsWatched recv now dst seq peer_addr (some h) group e w = record {
    watched = λ a. elim (Bool-cases (a == dst)) [
      | inl same ↦
          rw same (
            w.watched a
            ∙ ap (λ x. node_of (group.mapping x)) ((==_iff a dst).0 same)
            ∙ ap node_of e)
      | inr other ↦ rw other (w.watched a)
    ];
  }

  pushed-IsWatched :
      (has_room : Bool) (dst : ℕ) (group : GroupHandle Net) (r : PushResult × FlowControl Net)
      → IsWatched group
      → IsWatched (after_push ip has_room dst group r).1
  pushed-IsWatched has_room dst group (reject, fc) w = record { watched = w.watched }
  pushed-IsWatched has_room dst group (accept, fc) w = record { watched = w.watched }

  -- Every message that the UDP handler receives leaves the nodes last sent on the watch channel
  -- equal to those of the mapping, if they were so before: a new address of a node is sent at once,
  -- and nothing else that the handler changes belongs to a node.
  pub receive-IsWatched :
      (recv clock now : ℕ) (allow has_room : Bool) (peer_addr : SocketAddr) (msg : UdpMsg)
      (group : GroupHandle Net)
      → IsWatched group
      → IsWatched (receive ip recv clock now allow has_room peer_addr msg group).1
  unfolding receive relay
  receive-IsWatched recv clock now allow has_room peer_addr (UdpMsg.heartbeat dst seq req) group w =
      request-IsWatched dst peer_addr (group.mapping dst) group w
  receive-IsWatched recv clock now allow has_room peer_addr (UdpMsg.heartbeat dst seq resp) group
        w =
      response-IsWatched recv clock dst seq peer_addr (group.mapping dst) group refl w
  receive-IsWatched recv clock now false has_room peer_addr (UdpMsg.relay dst content) group w = w
  receive-IsWatched recv clock now true has_room peer_addr (UdpMsg.relay dst content) group w =
      pushed-IsWatched has_room dst group (push ip now dst (length content) group.flow_control) w
  receive-IsWatched recv clock now allow has_room peer_addr (UdpMsg.payload content) group w = w
