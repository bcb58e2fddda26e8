-- ===== src/Nodes/Receiving/Overlong.antt =====
-- What the receiving loop of `udp_handler` (src/node/mod.rs) passes on of a datagram.
use mathlib.Core.List.{append_assoc}
use fubuki_test.Base.{
  ℕ, ◌+◌, ◌-◌, ◌^◌, ◌<◌, ◌≡◌, refl, Bool, List, [], ◌∷◌, ◌++◌, length, length-append, ok, arith,
}
use fubuki_test.Base.Bytes.{be16}
use fubuki_test.Cipher.Laws.{IsCipher}
use fubuki_test.Protocol.{SocketAddr, magic_num}
use fubuki_test.Protocol.Mode
use fubuki_test.Protocol.Buffer.{split_at-append}
use fubuki_test.Protocol.Udp.{decode_content}
use fubuki_test.Protocol.Udp.RoundTrip.{decode_sealed}
use fubuki_test.Nodes.{Interface}
use fubuki_test.Nodes.Sending.Delivery.{data_packet}
use fubuki_test.Nodes.Receiving.{UdpConfig, pass_on, receive, handle}

module _ (config : UdpConfig) (is_server through : SocketAddr → Bool) (now nonce : ℕ) where
  -- A data packet that stands in the buffer is passed on with the 4 bytes that stand behind it: the
  -- range for `send_packet` holds the content and then those bytes.
  pub receive-overlong :
      {Net : Type 0} (inter : Interface Net) (peer_addr : SocketAddr) (sent len : ℕ)
      (before content stale rest : List ℕ)
      → IsCipher inter.key
      → sent < 2 ^ 16
      → length before ≡ 4
      → length stale ≡ 4
      → len ≡ 4 + length content
      → (front : List ℕ) × (length front ≡ 8)
        × (receive config is_server through now nonce len peer_addr
              (before ++ (data_packet inter.key sent content ++ (stale ++ rest)))
              inter
            ≡ ok (pass_on 8 (8 + len) (front ++ ((content ++ stale) ++ rest)), inter))
        × (length (content ++ stale) ≡ (8 + len) - 8)
  unfolding receive handle decode_content be16
  receive-overlong inter peer_addr sent len (a ∷ b ∷ c ∷ d ∷ []) content stale rest lawful hn hb hs
        hl =
      let packet = data_packet inter.key sent content in
      let whole : len ≡ length packet =
        omega (arith, lawful.length-encrypt (magic_num ∷ Mode.payload ∷ content) 0 sent) in
      (
        a ∷ b ∷ c ∷ d ∷ (be16 sent ++ (magic_num ∷ Mode.payload ∷ [])),
        refl,
        rw
            (
              split_at-append len packet (stale ++ rest) whole,
              decode_sealed lawful sent Mode.payload content hn,
              append_assoc content stale rest,
            )
            refl,
        omega (arith, length-append content stale),
      )
  receive-overlong inter peer_addr sent len _ content stale rest lawful hn hb hs hl =
      absurd (omega arith)
