-- ===== src/Nodes/Sending/Delivery.antt =====
-- What a node reads of a packet that is sent straight to it (src/node/mod.rs: `send`).
use mathlib.Core.List.{append-nil}
use fubuki_test.Base.{
  ℕ, suc, ◌+◌, ◌-◌, ◌/◌, ◌<◌, ◌^◌, ◌≡◌, refl, sym, ap, ◌∙◌, Bool, true, false, List, [], ◌∷◌, ◌++◌,
  leb, length, length-append, ok, arith,
}
use fubuki_test.Base.Bytes.{be16, u8}
use fubuki_test.Cipher.{Cipher}
use fubuki_test.Cipher.Laws.{at, IsCipher}
use fubuki_test.Heartbeat.{available}
use fubuki_test.Protocol.{SocketAddr, magic_num, payload}
use fubuki_test.Protocol.Mode
use fubuki_test.Protocol.Buffer.{split_at-append}
use fubuki_test.Protocol.Udp.{Written, seal, data_encode, decode, decode_content}
use fubuki_test.Protocol.Udp.Seal.{seal_lem}
use fubuki_test.Protocol.Udp.RoundTrip.{decode_sealed}
use fubuki_test.Nodes.{ExtendedNode, NodeList, Interface}
use fubuki_test.Nodes.NextHop.{Dijkstra}
use fubuki_test.Nodes.Sending.{
  Outside, Sending, delivered, datagram, encode_in, send_datagram, send_data, send_direct, send,
  mode_for, is_empty,
}

-- The packet of a payload: the nonce, and the rest enciphered.
abbrev pub data_packet : Cipher → (nonce : ℕ) → List ℕ → List ℕ
data_packet key nonce content =
    be16 nonce ++ key.encrypt (magic_num ∷ Mode.payload ∷ content) (at 0 nonce)

pub encode_in-slice :
    (front slice rest packet : List ℕ) (stop len : ℕ) (encode : List ℕ → Written)
    → stop ≡ length front + length slice
    → encode slice ≡ ok (len, packet)
    → encode_in (length front) stop encode (front ++ (slice ++ rest))
      ≡ ok (packet, front ++ (packet ++ rest))
unfolding encode_in
encode_in-slice front slice rest packet stop len encode hs he =
    rw
      (
        split_at-append (length front) front (slice ++ rest) refl,
        split_at-append (stop - length front) slice rest (omega arith),
        he,
      )
      refl

data_encode-slice :
    (key : Cipher) (nonce a b c d : ℕ) (content : List ℕ)
    → data_encode key nonce (length content) (a ∷ b ∷ c ∷ d ∷ content)
      ≡ ok (4 + length content, data_packet key nonce content)
unfolding data_encode be16
data_encode-slice key nonce a b c d content =
    let plain = magic_num ∷ Mode.payload ∷ content in
    let nil : (l : List ℕ) → l ++ [] ≡ l = λ l. append-nil l in
    let sealed =
      seal_lem key nonce (4 + length content) (u8 (nonce / 256)) (u8 nonce) plain []
        (omega arith) in
    let sealed' : seal key nonce (4 + length content) (u8 (nonce / 256) ∷ u8 nonce ∷ plain)
        ≡ ok (4 + length content, u8 (nonce / 256) ∷ u8 nonce ∷ key.encrypt plain (at 0 nonce)) =
      ap (λ l. seal key nonce (4 + length content) (u8 (nonce / 256) ∷ u8 nonce ∷ l))
        (sym (nil plain))
      ∙ sealed
      ∙ ap (λ l. ok (4 + length content, u8 (nonce / 256) ∷ u8 nonce ∷ l))
          (nil (key.encrypt plain (at 0 nonce))) in
    sealed'

-- Both sides take packets straight from each other.
abbrev pub IsDirect : {Net : Type 0} → Interface Net → ExtendedNode Net → Type 0
IsDirect inter dst_node =
    let mode = mode_for inter (inter.specify_mode dst_node.node.virtual_addr) in
    (is_empty mode.p2p ≡ false) × (is_empty dst_node.node.mode.p2p ≡ false)

module _ {Net : Type 0} (dijkstra : Dijkstra) (out : Outside) (now nonce : ℕ)
    (inter : Interface Net) where
  -- The state after a packet was delivered to an address.
  abbrev pub delivered_to : (front content rest : List ℕ) → SocketAddr → Sending → Sending
  delivered_to front content rest to s = record s {
    buff = front ++ (data_packet inter.key nonce content ++ rest);
    attempts = suc s.attempts;
    sent = datagram to (data_packet inter.key nonce content) ∷ s.sent;
  }

  pub send_data-delivered :
      (front old content rest : List ℕ) (to : SocketAddr) (s : Sending)
      → length old ≡ 4
      → inter.has_socket ≡ true
      → out.send_msg s.attempts ≡ delivered
      → s.buff ≡ front ++ ((old ++ content) ++ rest)
      → send_data dijkstra out now nonce inter
          (length front + 4)
          (length front + 4 + length content)
          to
          s
        ≡ ok (true, delivered_to front content rest to s)
  unfolding send_data send_datagram
  send_data-delivered front (a ∷ b ∷ c ∷ d ∷ []) content rest to s hl hk hd hb =
      let start = length front + 4 in
      let enough : leb 4 start ≡ true = ground arith in
      let at_front : start - 4 ≡ length front = omega arith in
      let len : start + length content - start ≡ length content = omega arith in
      rw (hk, enough, at_front, len, hb)
        (rw
          (encode_in-slice front (a ∷ b ∷ c ∷ d ∷ content) rest
            (data_packet inter.key nonce content) (start + length content) (4 + length content)
            (data_encode inter.key nonce (length content)) (omega arith)
            (data_encode-slice inter.key nonce a b c d content))
          (rw hd refl))
  send_data-delivered front _ content rest to s hl hk hd hb = absurd (omega arith)

  pub send-delivered :
      (front old content rest : List ℕ) (to : SocketAddr) (s : Sending) (node_relay : Bool)
      (dst_node : ExtendedNode Net) (node_list : NodeList Net)
      → length old ≡ 4
      → inter.has_socket ≡ true
      → out.send_msg s.attempts ≡ delivered
      → s.buff ≡ front ++ ((old ++ content) ++ rest)
      → IsDirect inter dst_node
      → dst_node.udp_status ≡ available to
      → send dijkstra out now nonce inter
          (length front + 4)
          (length front + 4 + length content)
          node_relay
          dst_node
          node_list
          s
        ≡ ok (delivered_to front content rest to s)
  unfolding send send_direct
  send-delivered front old content rest to s node_relay dst_node node_list hl hk hd hb (hm, hn) ha =
      rw (hm, hn, ha) (rw (send_data-delivered front old content rest to s hl hk hd hb) refl)

-- A receiver with the key reads the packet as this content.
abbrev pub Decodes : Cipher → List ℕ → List ℕ → Type 0
Decodes key packet content = (plain : List ℕ) × (decode key packet ≡ ok (plain, payload content))

pub data_packet-Decodes :
    (key : Cipher) (nonce : ℕ) (content : List ℕ)
    → IsCipher key
    → nonce < 2 ^ 16
    → Decodes key (data_packet key nonce content) content
unfolding decode_content
data_packet-Decodes key nonce content lawful h = (
  be16 nonce ++ (magic_num ∷ Mode.payload ∷ content),
  decode_sealed lawful nonce Mode.payload content h,
)

-- Where both sides take packets straight from each other and the node's address is known, a packet
-- whose sending succeeds goes to that address, and only there, the node reads its content from it,
-- and the buffer keeps its length.
pub send-IsRead :
    {Net : Type 0} (dijkstra : Dijkstra) (out : Outside) (now nonce : ℕ) (inter : Interface Net)
    (front old content rest : List ℕ) (to : SocketAddr) (s : Sending) (node_relay : Bool)
    (dst_node : ExtendedNode Net) (node_list : NodeList Net)
    → IsCipher inter.key
    → nonce < 2 ^ 16
    → length old ≡ 4
    → inter.has_socket ≡ true
    → out.send_msg s.attempts ≡ delivered
    → s.buff ≡ front ++ ((old ++ content) ++ rest)
    → IsDirect inter dst_node
    → dst_node.udp_status ≡ available to
    → (s' : Sending) × (packet : List ℕ) × (send dijkstra out now nonce inter
          (length front + 4)
          (length front + 4 + length content)
          node_relay
          dst_node
          node_list
          s
        ≡ ok s')
      × (s'.sent ≡ datagram to packet ∷ s.sent)
      × Decodes inter.key packet content
      × (length s'.buff ≡ length s.buff)
unfolding be16
send-IsRead dijkstra out now nonce inter front old content rest to s node_relay dst_node node_list
      lawful hn hl hk hd hb hi ha =
    let packet = data_packet inter.key nonce content in
    (
      delivered_to dijkstra out now nonce inter front content rest to s,
      packet,
      send-delivered dijkstra out now nonce inter front old content rest to s node_relay dst_node
          node_list hl hk hd hb hi ha,
      refl,
      data_packet-Decodes inter.key nonce content lawful hn,
      rw hb (
          omega (
            arith,
            hl,
            length-append front (packet ++ rest),
            length-append packet rest,
            length-append front ((old ++ content) ++ rest),
            length-append (old ++ content) rest,
            length-append old content,
            lawful.length-encrypt (magic_num ∷ Mode.payload ∷ content) 0 nonce,
          )),
    )
