-- ===== src/Nodes/Sending/Twice.antt =====
-- A broadcast of `send_packet` (src/node/mod.rs) hands one buffer to `send` for each node, and `send`
-- enciphers it in place.
use fubuki_test.Base.{
  ℕ, suc, ◌+◌, ◌^◌, ◌<◌, ◌≡◌, ◌≢◌, refl, sym, ap, true, false, List, [], ◌∷◌, ◌++◌, ◌==◌, length,
  ok, arith,
}
use fubuki_test.Base.Bytes.{be16}
use fubuki_test.Cipher.{Cipher}
use fubuki_test.Cipher.Laws.{at, IsCipher}
use fubuki_test.Heartbeat.{available}
use fubuki_test.Protocol.{SocketAddr, magic_num}
use fubuki_test.Protocol.Mode
use fubuki_test.Nodes.{ExtendedNode, NodeList, Interface}
use fubuki_test.Nodes.NextHop.{Dijkstra}
use fubuki_test.Nodes.Sending.{Outside, Sending, delivered, datagram, send}
use fubuki_test.Nodes.Sending.Delivery.{
  data_packet, IsDirect, Decodes, delivered_to, send-delivered, data_packet-Decodes,
}
use fubuki_test.Nodes.Packets.{send_all}

-- A data packet ends with the content, enciphered.
data_packet-content :
    (key : Cipher) (nonce : ℕ) (content : List ℕ)
    → IsCipher key
    → data_packet key nonce content
      ≡ (be16 nonce ++ key.encrypt (magic_num ∷ Mode.payload ∷ []) (at 0 nonce))
        ++ key.encrypt content (at 2 nonce)
unfolding be16
data_packet-content key nonce content lawful =
    ap (λ l. be16 nonce ++ l)
      (lawful.encrypt_append (magic_num ∷ Mode.payload ∷ []) content 0 nonce)

-- The 4 bytes before the content.
abbrev packet_front : Cipher → ℕ → List ℕ
packet_front key nonce = be16 nonce ++ key.encrypt (magic_num ∷ Mode.payload ∷ []) (at 0 nonce)

length-packet_front :
    (key : Cipher) (nonce : ℕ) → IsCipher key → length (packet_front key nonce) ≡ 4
unfolding be16
length-packet_front key nonce lawful =
    omega (arith, lawful.length-encrypt (magic_num ∷ Mode.payload ∷ []) 0 nonce)

module _ {Net : Type 0} (dijkstra : Dijkstra) (out : Outside) (now : ℕ) (nonce : ℕ → ℕ)
    (inter : Interface Net) (lawful : IsCipher inter.key) where
  -- A node that the packet reaches straight, at the address `to`.
  pub record Reaches (node : ExtendedNode Net) (to : SocketAddr) : Type 0 where
    pub is_other : node.node.virtual_addr ≢ inter.addr
    pub is_direct : IsDirect inter node
    pub is_available : node.udp_status ≡ available to

  -- The state once the two packets are delivered.
  abbrev pub twice : (front content rest : List ℕ) (to to' : SocketAddr) → Sending → Sending
  twice front content rest to to' s =
      let first = nonce s.attempts in
      let second = nonce (suc s.attempts) in
      let again = inter.key.encrypt content (at 2 first) in
      record s {
        buff = front ++ (data_packet inter.key second again ++ rest);
        attempts = suc (suc s.attempts);
        sent =
            datagram to' (data_packet inter.key second again)
            ∷ datagram to (data_packet inter.key first content)
            ∷ s.sent;
      }

  send_all-twice :
      (front old content rest : List ℕ) (to to' : SocketAddr) (s : Sending)
      (node node' : ExtendedNode Net) (all : NodeList Net)
      → length old ≡ 4
      → inter.has_socket ≡ true
      → out.send_msg s.attempts ≡ delivered
      → out.send_msg (suc s.attempts) ≡ delivered
      → s.buff ≡ front ++ ((old ++ content) ++ rest)
      → Reaches node to
      → Reaches node' to'
      → send_all dijkstra out now
          (length front + 4)
          (length front + 4 + length content)
          nonce
          inter
          all
          (node ∷ node' ∷ [])
          s
        ≡ ok (twice front content rest to to' s)
  unfolding send_all
  send_all-twice front old content rest to to' s node node' all hl hk hd hd' hb r r' =
      let one =
        send-delivered dijkstra out now (nonce s.attempts) inter front old content rest to s false
          node all hl hk hd hb r.is_direct r.is_available in
      let s' = delivered_to dijkstra out now (nonce s.attempts) inter front content rest to s in
      let two : send dijkstra out now (nonce (suc s.attempts)) inter (length front + 4)
            (length front + 4 + length content) false node' all s'
          ≡ ok (twice front content rest to to' s) =
        rw (sym (lawful.length-encrypt content 2 (nonce s.attempts))) (
          send-delivered dijkstra out now (nonce (suc s.attempts)) inter front
            (packet_front inter.key (nonce s.attempts))
            (inter.key.encrypt content (at 2 (nonce s.attempts))) rest to' s' false node' all
            (length-packet_front inter.key (nonce s.attempts) lawful) hk hd'
            (ap (λ l. front ++ (l ++ rest))
              (data_packet-content inter.key (nonce s.attempts) content lawful))
            r'.is_direct r'.is_available) in
      let other : (node.node.virtual_addr == inter.addr) ≡ false = ground (arith, r.is_other) in
      let other' : (node'.node.virtual_addr == inter.addr) ≡ false = ground (arith, r'.is_other) in
      rw (other, other') (rw one (rw two refl))

  -- Of a broadcast to two nodes that are reached straight, both packets delivered, the first node
  -- reads the content, and the second reads the content enciphered with the nonce of the first packet.
  pub send_all-enciphers_twice :
      (front old content rest : List ℕ) (to to' : SocketAddr) (s : Sending)
      (node node' : ExtendedNode Net) (all : NodeList Net)
      → length old ≡ 4
      → inter.has_socket ≡ true
      → out.send_msg s.attempts ≡ delivered
      → out.send_msg (suc s.attempts) ≡ delivered
      → s.buff ≡ front ++ ((old ++ content) ++ rest)
      → nonce s.attempts < 2 ^ 16
      → nonce (suc s.attempts) < 2 ^ 16
      → Reaches node to
      → Reaches node' to'
      → (s' : Sending) × (first second : List ℕ) × (send_all dijkstra out now
            (length front + 4)
            (length front + 4 + length content)
            nonce
            inter
            all
            (node ∷ node' ∷ [])
            s
          ≡ ok s')
        × (s'.sent ≡ datagram to' second ∷ datagram to first ∷ s.sent)
        × Decodes inter.key first content
        × Decodes inter.key second (inter.key.encrypt content (at 2 (nonce s.attempts)))
  send_all-enciphers_twice front old content rest to to' s node node' all hl hk hd hd' hb hn hn' r
        r' =
      (
        twice front content rest to to' s,
        data_packet inter.key (nonce s.attempts) content,
        data_packet inter.key (nonce (suc s.attempts))
            (inter.key.encrypt content (at 2 (nonce s.attempts))),
        send_all-twice front old content rest to to' s node node' all hl hk hd hd' hb r r',
        refl,
        data_packet-Decodes inter.key (nonce s.attempts) content lawful hn,
        data_packet-Decodes inter.key (nonce (suc s.attempts)) _ lawful hn',
      )
