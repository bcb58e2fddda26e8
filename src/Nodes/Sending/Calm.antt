-- ===== src/Nodes/Sending/Calm.antt =====
-- When `send` (src/node/mod.rs) does not panic.
mod Encoders
use fubuki_test.Base.{
  ℕ, zero, suc, ◌+◌, ◌-◌, ◌≤◌, ◌<◌, ◌^◌, ◌≡◌, ◌≢◌, refl, sym, ap, ◌∙◌, subst, Bool, true, false,
  Bool-cases, ◌&&◌, ◌||◌, not, ◌⊎◌, inl, inr, Option, none, some, List, [], ◌∷◌, ◌++◌, leb, ltb,
  ◌*◌, ◌/◌, length, length-append, replicate, if◌then◌else◌, Outcome, ok, err, panic, ◌>>=◌, ◌>>◌,
  check, arith,
}
use mathlib.Core.List.{append-nil}
use fubuki_test.Cipher.Laws.{at, IsCipher}
use fubuki_test.Heartbeat.{UdpStatus, available, unavailable}
use fubuki_test.Protocol.{
  magic_num, NetProtocol, NetProtocols, ProtocolMode, tcp, udp, contains, is_use_udp, is_use_tcp,
  SocketAddr, ProtocolError,
}
use fubuki_test.Protocol.Buffer.{split_at, split_at-append, split_at_enough}
use fubuki_test.Protocol.Udp as Udp
use fubuki_test.Protocol.Mode
use fubuki_test.Protocol.Udp.Seal.{seal_lem}
use fubuki_test.Protocol.Udp.{Written, seal}
use fubuki_test.Base.Bytes.{be16, be32, u8, u16}
use fubuki_test.Protocol.Udp.RoundTrip.{data_round_trip, relay_round_trip}
use fubuki_test.Protocol.Tcp as Tcp
use fubuki_test.Nodes.{ExtendedNode, NodeList, get_node, Interface, Peers}
use fubuki_test.Nodes.NextHop.{
  NextHop, Dijkstra, CacheEntry, Cache, second, lookup, store, answer, find_next_hop,
}
use fubuki_test.Nodes.NextHop.Recent.{IsPathSearch, find-returns}
use fubuki_test.Nodes.Sending.Delivery.{encode_in-slice}
use fubuki_test.Nodes.Sending.{
  Outside, Sending, SendResult, delivered, fatal, suppressed, Progress, ◌or_else◌, encode_in,
  answered, handed, found, is_empty, mode_for, packet_len, send_datagram, send_data, send_through,
  through_hop, through_peers, relay_packet_through_node, send_direct, relay_tcp, relay_udp_to,
  relay_udp, relay_by, relay_loop, attempts, send,
}
use fubuki_test.Nodes.Sending.Calm.Encoders.{
  IsCalm, or_else-IsCalm, answered-IsCalm, handed-IsCalm, check-IsCalm, Encodes, encode_in-keeps,
  data-Encodes, relay-Encodes,
}

-- A mode that is not empty between nodes and has no TCP there uses UDP.
pub p2p_uses_udp :
    (ps : NetProtocols) → contains ps tcp ≡ false → is_empty ps ≡ false → contains ps udp ≡ true
p2p_uses_udp [] t e = absurd (ground (arith, e))
p2p_uses_udp (tcp ∷ ps) t e = absurd (ground (arith, t))
p2p_uses_udp (udp ∷ ps) t e = refl

module _ {Net : Type 0} (inter : Interface Net) where
  -- The socket and the channel that these protocols need.
  abbrev pub Has : NetProtocols → Type 0
  Has ps =
      ((contains ps tcp ≡ true) → inter.has_channel ≡ true)
      × ((contains ps udp ≡ true) → inter.has_socket ≡ true)

  -- The interface has what a mode needs.
  abbrev pub Serves : ProtocolMode → Type 0
  Serves mode = Has mode.relay × (is_empty mode.p2p ≡ false → inter.has_socket ≡ true)

module _ {Net : Type 0} (inter : Interface Net) (lawful : IsCipher inter.key) (nonce : ℕ)
    (small : nonce < 2 ^ 16) where
  -- The search gives a node behind the start, so that the next hop is there.
  find_next_hop-returns :
      (dijkstra : Dijkstra) (now dst : ℕ) (peers : Peers) (cache : Cache)
      → IsPathSearch dijkstra
      → inter.addr ≢ dst
      → (r : Option NextHop × Cache) × (find_next_hop dijkstra now inter.addr dst peers cache
          ≡ ok r)
  unfolding find_next_hop
  find_next_hop-returns dijkstra now dst peers cache paths other = by_entry (lookup dst cache)
    where
      by_entry :
          (o : Option CacheEntry)
          → (r : Option NextHop × Cache) × (answer dijkstra now inter.addr dst peers cache o ≡ ok r)
      by_entry none =
          let (hop, e) = find-returns dijkstra paths inter.addr dst (λ t. peers) now other in
          ((hop, store (record { addr = dst; next_hop = hop; update_time = now }) cache), rw e refl)
      by_entry (some entry) = elim (Bool-cases (ltb (now - entry.update_time) (60 * second))) [
        | inl young ↦ ((entry.next_hop, cache), rw young refl)
        | inr old ↦
            let (hop, e) = find-returns dijkstra paths inter.addr dst (λ t. peers) now other in
            (
              (hop, store (record { addr = dst; next_hop = hop; update_time = now }) cache),
              rw old (rw e refl),
            )
      ]

  module _ (dijkstra : Dijkstra) (paths : IsPathSearch dijkstra) (out : Outside)
      (now start stop : ℕ) (room : 8 ≤ start) (ordered : start ≤ stop) (n : ℕ) (whole : stop ≤ n)
      (fits : 10 + (stop - start) ≤ 262144) (dst : ℕ) (is_addr : dst < 2 ^ 32)
      (other : inter.addr ≢ dst) where
    send_datagram-IsCalm :
        (front : ℕ) (encode : List ℕ → Written) (to : SocketAddr) (s : Sending)
        → front ≤ start
        → Encodes (front + (stop - start)) encode
        → length s.buff ≡ n
        → IsCalm n (send_datagram dijkstra out now nonce inter start stop front encode to s)
    unfolding send_datagram
    send_datagram-IsCalm front encode to s f enc l =
        let enough : leb front start ≡ true = ground (arith, f) in
        let (packet, buff', e, l') =
          encode_in-keeps (start - front) stop encode s.buff (omega arith) (omega arith)
            (subst (λ m. Encodes m encode) (omega arith) enc) in
        rw (enough, e)
          (answered-IsCalm n (out.send_msg s.attempts) to packet (record s { buff = buff' })
            (l' ∙ l))

    send_data-IsCalm :
        (to : SocketAddr) (s : Sending)
        → inter.has_socket ≡ true
        → length s.buff ≡ n
        → IsCalm n (send_data dijkstra out now nonce inter start stop to s)
    unfolding send_data
    send_data-IsCalm to s k l = check-IsCalm n inter.has_socket _ k (
        send_datagram-IsCalm 4 _ to s (omega arith)
          (data-Encodes inter lawful nonce small (stop - start)) l)

    send_through-IsCalm :
        (o : Option (ExtendedNode Net)) (s : Sending)
        → inter.has_socket ≡ true
        → length s.buff ≡ n
        → IsCalm n (send_through dijkstra out now nonce inter start stop o s)
    send_through-IsCalm none s k l = l
    send_through-IsCalm (some node) s k l = at node.udp_status
      where
        at :
            (u : UdpStatus SocketAddr)
            → IsCalm n (elim u [
              | available dst_addr ↦ send_data dijkstra out now nonce inter start stop dst_addr s
              | unavailable ↦ ok (false, s)
            ])
        at (available to) = send_data-IsCalm to s k l
        at unavailable = l

    through_hop-IsCalm :
        (max_cost : ℕ) (node_list : NodeList Net) (hop : Option NextHop) (s : Sending)
        → inter.has_socket ≡ true
        → length s.buff ≡ n
        → IsCalm n (through_hop dijkstra out now nonce inter start stop max_cost node_list hop s)
    through_hop-IsCalm max_cost node_list none s k l = l
    through_hop-IsCalm max_cost node_list (some next) s k l =
        elim (Bool-cases (ltb next.cost max_cost)) [
          | inl cheap ↦ rw cheap (send_through-IsCalm (get_node next.next node_list) s k l)
          | inr dear ↦ rw dear l
        ]

    through_peers-IsCalm :
        (max_cost : ℕ) (node_list : NodeList Net) (o : Option Peers) (s : Sending)
        → inter.has_socket ≡ true
        → length s.buff ≡ n
        → IsCalm n
            (through_peers dijkstra out now nonce inter start stop max_cost dst node_list o s)
    through_peers-IsCalm max_cost node_list none s k l = l
    through_peers-IsCalm max_cost node_list (some peers) s k l =
        let (r, e) = find_next_hop-returns dijkstra now dst peers s.cache paths other in
        rw e (through_hop-IsCalm max_cost node_list r.0 (record s { cache = r.1 }) k l)

    relay_through-IsCalm :
        (max_cost : ℕ) (node_relay : Bool) (node_list : NodeList Net) (s : Sending)
        → inter.has_socket ≡ true
        → length s.buff ≡ n
        → IsCalm n (
            relay_packet_through_node dijkstra out now nonce inter start stop max_cost node_relay
              dst node_list s)
    unfolding relay_packet_through_node
    relay_through-IsCalm max_cost false node_list s k l = l
    relay_through-IsCalm max_cost true node_list s k l =
        through_peers-IsCalm max_cost node_list inter.peers_map s k l

    relay_udp_to-IsCalm :
        (u : UdpStatus SocketAddr) (s : Sending)
        → length s.buff ≡ n
        → IsCalm n (relay_udp_to dijkstra out now nonce inter start stop dst u s)
    relay_udp_to-IsCalm unavailable s l = l
    relay_udp_to-IsCalm (available to) s l =
        send_datagram-IsCalm 8 _ to s room
          (relay-Encodes inter lawful nonce small (stop - start) dst is_addr) l

    tcp_encode-returns :
        (content : List ℕ)
        → (r : ℕ × List ℕ) × (Tcp.relay_encode inter.key nonce dst
              (length content)
              (replicate 10 0 ++ content)
            ≡ ok r)
    unfolding Tcp.relay_encode be16 be32
    tcp_encode-returns content =
        let size = u16 (4 + length content) in
        let plain =
          magic_num
          ∷ Mode.relay
          ∷ u8 (size / 256)
          ∷ u8 size
          ∷ u8 (dst / 2 ^ 24)
          ∷ u8 (dst / 2 ^ 16)
          ∷ u8 (dst / 2 ^ 8)
          ∷ u8 dst
          ∷ content in
        let sealed =
          seal_lem inter.key nonce (6 + (4 + length content)) (u8 (nonce / 256)) (u8 nonce) plain []
            (omega arith) in
        (
          _,
          ap
                (λ l.
                  seal inter.key nonce (6 + (4 + length content)) (u8 (nonce / 256) ∷ u8 nonce ∷ l))
                (sym (append-nil plain))
              ∙ sealed,
        )

    relay_tcp-IsCalm :
        (s : Sending)
        → inter.has_channel ≡ true
        → length s.buff ≡ n
        → IsCalm n (relay_tcp dijkstra out now nonce inter start stop dst s)
    unfolding relay_tcp
    relay_tcp-IsCalm s k l =
        let (x, y, e, lx) = split_at_enough start s.buff (omega arith) in
        let total : length s.buff ≡ length x + length y = ap length e ∙ length-append x y in
        let (u, v, e', lu) = split_at_enough (stop - start) y (omega arith) in
        let (r, enc) = tcp_encode-returns u in
        let first : split_at start s.buff ≡ some (x, y) =
          ap (split_at start) e ∙ split_at-append start x y (sym lx) in
        let second : split_at (stop - start) y ≡ some (u, v) =
          ap (split_at (stop - start)) e' ∙ split_at-append (stop - start) u v (sym lu) in
        let enc' : Tcp.relay_encode inter.key nonce dst (stop - start) (replicate 10 0 ++ u)
            ≡ ok r =
          subst (λ m. Tcp.relay_encode inter.key nonce dst m (replicate 10 0 ++ u) ≡ ok r) lu enc in
        let allocates : leb (10 + (stop - start)) 262144 ≡ true = ground (arith, fits) in
        check-IsCalm n inter.has_channel _ k (
          rw allocates
            (rw first (rw second (rw enc' (handed-IsCalm n (out.try_send s.attempts) r.1 s l)))))

    relay_by-IsCalm :
        (np : NetProtocol) (nps : NetProtocols) (s : Sending)
        → Has inter (np ∷ nps)
        → length s.buff ≡ n
        → IsCalm n (relay_by dijkstra out now nonce inter start stop np dst s)
    unfolding relay_udp
    relay_by-IsCalm tcp nps s (t, u) l = at inter.server_allow_tcp_relay
      where
        at :
            (b : Bool)
            → IsCalm n (
                if b
                then relay_tcp dijkstra out now nonce inter start stop dst s
                else ok (false, s))
        at true = relay_tcp-IsCalm s (t refl) l
        at false = l
    relay_by-IsCalm udp nps s (t, u) l = at inter.server_allow_udp_relay
      where
        at :
            (b : Bool)
            → IsCalm n (
                if b
                then relay_udp dijkstra out now nonce inter start stop dst s
                else ok (false, s))
        at true =
            check-IsCalm n inter.has_socket _ (u refl)
              (relay_udp_to-IsCalm inter.server_udp_status s l)
        at false = l

    rest-Has : (np : NetProtocol) (nps : NetProtocols) → Has inter (np ∷ nps) → Has inter nps
    rest-Has np nps (t, u) = (λ h. t (ground (arith, h)), λ h. u (ground (arith, h)))

    relay_loop-IsCalm :
        (nps : NetProtocols) (s : Sending)
        → Has inter nps
        → length s.buff ≡ n
        → IsCalm n (relay_loop dijkstra out now nonce inter start stop nps dst s)
    unfolding relay_loop
    relay_loop-IsCalm [] s h l = l
    relay_loop-IsCalm (np ∷ nps) s h l =
        or_else-IsCalm n (relay_by dijkstra out now nonce inter start stop np dst s) _
          (relay_by-IsCalm np nps s h l) (λ s' l'. relay_loop-IsCalm nps s' (rest-Has np nps h) l')

    send_direct-IsCalm :
        (u : UdpStatus SocketAddr) (s : Sending)
        → inter.has_socket ≡ true
        → length s.buff ≡ n
        → IsCalm n (send_direct dijkstra out now nonce inter start stop u s)
    unfolding send_direct
    send_direct-IsCalm (available to) s k l = send_data-IsCalm to s k l
    send_direct-IsCalm unavailable s k l = l

    when-IsCalm :
        (b : Bool) (p : Progress) (s : Sending)
        → length s.buff ≡ n
        → (b ≡ true → IsCalm n p)
        → IsCalm n (if b then p else ok (false, s))
    when-IsCalm true p s l c = c refl
    when-IsCalm false p s l c = l

    attempts-IsCalm :
        (node_relay : Bool) (mode theirs : ProtocolMode) (u : UdpStatus SocketAddr)
        (node_list : NodeList Net) (s : Sending)
        → Serves inter mode
        → length s.buff ≡ n
        → IsCalm n (
            attempts dijkstra out now nonce inter start stop node_relay dst mode theirs u node_list
              s)
    attempts-IsCalm node_relay mode theirs u node_list s (has, k) l =
        let p2p = not (is_empty mode.p2p) && not (is_empty theirs.p2p) in
        let socket : p2p ≡ true → inter.has_socket ≡ true = λ h. k (ground (arith, h)) in
        or_else-IsCalm n _ _
          (or_else-IsCalm n _ _
            (when-IsCalm p2p _ s l (λ h.
              or_else-IsCalm n _ _ (send_direct-IsCalm u s (socket h) l)
                (λ s' l'. relay_through-IsCalm 2 node_relay node_list s' (socket h) l')))
            (λ s' l'. when-IsCalm _ _ s' l' (λ h. relay_loop-IsCalm mode.relay s' has l')))
          (λ s' l'.
            when-IsCalm p2p _ s' l'
              (λ h. relay_through-IsCalm 5 node_relay node_list s' (socket h) l'))

-- The call returns: the state, with a buffer of this length, or the error of a socket.
abbrev pub Returns : ℕ → Outcome ProtocolError Sending → Type 0
Returns n (ok s) = length s.buff ≡ n
Returns n (err e) = Unit
Returns n panic = ⊥

calm-Returns : (n : ℕ) (p : Progress) → IsCalm n p → Returns n (p >>= λ r. ok r.1)
calm-Returns n (ok r) c = c
calm-Returns n (err e) c = tt
calm-Returns n panic c = elim c [ ]

-- send does not panic, whatever the sockets answer and whatever the cache holds, and keeps the
-- buffer's length, where the packet stands in the buffer behind at least 8 bytes and has at most
-- 262134 bytes, it is for another node, the search gives paths from the start to the goal, and the interface has the channel and the
-- socket that the mode it sends by needs.
pub send-Returns :
    {Net : Type 0} (inter : Interface Net) (nonce : ℕ) (dijkstra : Dijkstra) (out : Outside)
    (now start stop : ℕ) (node_relay : Bool) (dst_node : ExtendedNode Net)
    (node_list : NodeList Net) (s : Sending)
    → IsCipher inter.key
    → nonce < 2 ^ 16
    → IsPathSearch dijkstra
    → 8 ≤ start
    → start ≤ stop
    → stop ≤ length s.buff
    → 10 + (stop - start) ≤ 262144
    → dst_node.node.virtual_addr < 2 ^ 32
    → inter.addr ≢ dst_node.node.virtual_addr
    → Serves inter (mode_for inter (inter.specify_mode dst_node.node.virtual_addr))
    → Returns
        (length s.buff)
        (send dijkstra out now nonce inter start stop node_relay dst_node node_list s)
unfolding send
send-Returns inter nonce dijkstra out now start stop node_relay dst_node node_list s lawful small
      paths room ordered whole fits is_addr other serves =
    calm-Returns (length s.buff) _ (
      attempts-IsCalm inter lawful nonce small dijkstra paths out now start stop room ordered
        (length s.buff) whole fits dst_node.node.virtual_addr is_addr other node_relay _
        dst_node.node.mode dst_node.udp_status node_list s serves refl)
