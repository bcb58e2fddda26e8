-- ===== src/Protocol/Udp/RoundTrip.antt =====
-- `UdpMsg::decode` (src/common/net.rs) reads back what the encoders write.
use fubuki_test.Base.{
  ℕ, ◌+◌, ◌^◌, ◌≤◌, ◌<◌, ◌≡◌, refl, List, [], ◌∷◌, ◌++◌, take, length, ok, ◌>>=◌, arith,
  take-length-append, length-append,
}
use fubuki_test.Base.Bytes.{be16, be32, from_be16-be16, from_be32-be32}
use fubuki_test.Cipher.{Cipher}
use fubuki_test.Cipher.Laws.{at, IsCipher}
use fubuki_test.Protocol.{
  HeartbeatType, req, resp, type_byte, UdpMsg, heartbeat, payload, relay, magic_num,
}
use fubuki_test.Protocol.Mode
use fubuki_test.Protocol.Udp.Seal.{seal_lem}
use fubuki_test.Protocol.Udp.{
  Written, heartbeat_encode, data_encode, relay_encode, decode_content, decode,
}

-- `encoded` writes `len` bytes at the start of a buffer as long as before, and a receiver of those
-- bytes that has the same key reads `msg`.
abbrev pub ReadsBack : Cipher → List ℕ → Written → ℕ → UdpMsg → Type 0
ReadsBack key out encoded len msg =
    (out' : List ℕ) × (encoded ≡ ok (len, out'))
    × (length out' ≡ length out)
    × (plain : List ℕ) × (decode key (take len out') ≡ ok (plain, msg))

module _ {key : Cipher} (lawful : IsCipher key) where
  -- Deciphering the sealed bytes leaves the content to be read.
  pub decode_sealed :
      (nonce mode : ℕ) (content : List ℕ)
      → nonce < 2 ^ 16
      → decode key (be16 nonce ++ key.encrypt (magic_num ∷ mode ∷ content) (at 0 nonce)) ≡ (
          decode_content mode content >>= λ msg.
          ok (be16 nonce ++ (magic_num ∷ mode ∷ content), msg))
  unfolding decode be16
  decode_sealed nonce mode content h =
      rw (from_be16-be16 nonce h, lawful.decrypt-encrypt (magic_num ∷ mode ∷ content) 0 nonce)

  -- What a buffer holds behind the packet is not read.
  take_packet :
      (nonce len : ℕ) (plain rest : List ℕ)
      → len ≡ 2 + length plain
      → take len (be16 nonce ++ key.encrypt plain (at 0 nonce) ++ rest)
        ≡ be16 nonce ++ key.encrypt plain (at 0 nonce)
  unfolding be16
  take_packet nonce len plain rest e =
      let sealed = key.encrypt plain (at 0 nonce) in
      let l : len ≡ length (be16 nonce ++ sealed) =
        omega (arith, lawful.length-encrypt plain 0 nonce) in
      rw l (take-length-append (be16 nonce ++ sealed) rest)

  -- A sealed packet at the start of the buffer is read back.
  sealed-ReadsBack :
      (nonce mode : ℕ) (content rest out : List ℕ) (encoded : Written) (len : ℕ) (msg : UdpMsg)
      → nonce < 2 ^ 16
      → len ≡ 4 + length content
      → length out ≡ len + length rest
      → encoded
        ≡ ok (len, be16 nonce ++ key.encrypt (magic_num ∷ mode ∷ content) (at 0 nonce) ++ rest)
      → decode_content mode content ≡ ok msg
      → ReadsBack key out encoded len msg
  unfolding be16
  sealed-ReadsBack nonce mode content rest out encoded len msg hn hl ho he hd =
      let plain = magic_num ∷ mode ∷ content in
      let sealed = key.encrypt plain (at 0 nonce) in
      (
        be16 nonce ++ sealed ++ rest,
        he,
        omega (arith, length-append sealed rest, lawful.length-encrypt plain 0 nonce),
        be16 nonce ++ plain,
        rw (
          take_packet nonce len plain rest (omega arith),
          decode_sealed nonce mode content hn,
          hd,
        ),
      )

  read_heartbeat :
      (addr seq : ℕ) (t : HeartbeatType)
      → addr < 2 ^ 32
      → seq < 2 ^ 32
      → decode_content Mode.heartbeat (be32 addr ++ be32 seq ++ type_byte t ∷ [])
        ≡ ok (heartbeat addr seq t)
  unfolding be32 decode_content
  read_heartbeat addr seq req ha hs = rw (from_be32-be32 addr ha, from_be32-be32 seq hs)
  read_heartbeat addr seq resp ha hs = rw (from_be32-be32 addr ha, from_be32-be32 seq hs)

  read_relay :
      (addr : ℕ) (bytes : List ℕ)
      → addr < 2 ^ 32
      → decode_content Mode.relay (be32 addr ++ bytes) ≡ ok (relay addr bytes)
  unfolding be32 decode_content
  read_relay addr bytes ha = rw (from_be32-be32 addr ha)

  -- A heartbeat written into a buffer of at least 13 bytes is read back by whoever has the key.
  pub heartbeat_round_trip :
      (nonce addr seq : ℕ) (t : HeartbeatType) (out : List ℕ)
      → nonce < 2 ^ 16
      → addr < 2 ^ 32
      → seq < 2 ^ 32
      → 13 ≤ length out
      → ReadsBack key out (heartbeat_encode key nonce addr seq t out) 13 (heartbeat addr seq t)
  unfolding heartbeat_encode be16 be32
  heartbeat_round_trip nonce addr seq t
        (x0 ∷ x1 ∷ x2 ∷ x3 ∷ x4 ∷ x5 ∷ x6 ∷ x7 ∷ x8 ∷ x9 ∷ x10 ∷ x11 ∷ x12 ∷ rest) hn ha hs h =
      sealed-ReadsBack nonce Mode.heartbeat (be32 addr ++ be32 seq ++ type_byte t ∷ []) rest
        (x0 ∷ x1 ∷ x2 ∷ x3 ∷ x4 ∷ x5 ∷ x6 ∷ x7 ∷ x8 ∷ x9 ∷ x10 ∷ x11 ∷ x12 ∷ rest) _ 13
        (heartbeat addr seq t) hn refl (omega arith) refl (read_heartbeat addr seq t ha hs)
  heartbeat_round_trip nonce addr seq t _ hn ha hs h = absurd (omega arith)

  -- Content that stands in a buffer behind 4 bytes is framed in place and read back.
  pub data_round_trip :
      (nonce a b c d : ℕ) (content rest : List ℕ)
      → nonce < 2 ^ 16
      → ReadsBack key
          (a ∷ b ∷ c ∷ d ∷ (content ++ rest))
          (data_encode key nonce (length content) (a ∷ b ∷ c ∷ d ∷ (content ++ rest)))
          (4 + length content)
          (payload content)
  unfolding data_encode be16 decode_content
  data_round_trip nonce a b c d content rest hn =
      sealed-ReadsBack nonce Mode.payload content rest (a ∷ b ∷ c ∷ d ∷ (content ++ rest)) _
        (4 + length content) (payload content) hn refl (omega (arith, length-append content rest))
        (seal_lem key nonce (4 + length content) _ _ (magic_num ∷ Mode.payload ∷ content) rest
          (omega arith))
        refl

  -- So is content behind 8 bytes, with the address of the node that it is for.
  pub relay_round_trip :
      (nonce to a b c d e f g h : ℕ) (content rest : List ℕ)
      → nonce < 2 ^ 16
      → to < 2 ^ 32
      → let out = a ∷ b ∷ c ∷ d ∷ e ∷ f ∷ g ∷ h ∷ (content ++ rest) in
        ReadsBack key out
          (relay_encode key nonce to (length content) out)
          (8 + length content)
          (relay to content)
  unfolding relay_encode be16 be32
  relay_round_trip nonce to a b c d e f g h content rest hn ht =
      sealed-ReadsBack nonce Mode.relay (be32 to ++ content) rest
        (a ∷ b ∷ c ∷ d ∷ e ∷ f ∷ g ∷ h ∷ (content ++ rest)) _ (8 + length content)
        (relay to content) hn (omega arith) (omega (arith, length-append content rest))
        (seal_lem key nonce (8 + length content) _ _ (magic_num ∷ Mode.relay ∷ (be32 to ++ content))
          rest (omega arith))
        (read_relay to content ht)
