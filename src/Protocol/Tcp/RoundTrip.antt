-- ===== src/Protocol/Tcp/RoundTrip.antt =====
-- `TcpMsg::read_msg` (src/common/net.rs) reads back what the encoders write, message by message
-- off a stream.
use mathlib.Core.List.{append_assoc}
use fubuki_test.Base.{
  ℕ, ◌+◌, ◌/◌, ◌^◌, ◌<◌, ◌≤◌, ◌≡◌, refl, sym, ap, ◌∙◌, some, List, [], ◌∷◌, ◌++◌, length, take, ok,
  arith, take-length-append, length-append,
}
use fubuki_test.Base.Bytes.{u8, be16, be32, from_be16, from_be32-be32, from_be16-be16}
use fubuki_test.Cipher.{Cipher}
use fubuki_test.Cipher.Laws.{at, IsCipher}
use fubuki_test.Protocol.{TcpMsg, req, resp, magic_num, heartbeat_type_from}
use fubuki_test.Protocol.Buffer.{split_at-append, split_at_enough}
use fubuki_test.Protocol.Udp.{Written}
use fubuki_test.Protocol.Tcp.{Codecs}
use fubuki_test.Protocol.Tcp.Decode.{decode, read_sealed, read_msg}
use fubuki_test.Protocol.Tcp.Frame.{mode_of, Fits, content, encode, plain_frame, encode-framed}

module _ {Net : Type 0} (cs : Codecs Net) where
  -- `decode` undoes the encoding of the content.
  decode-content :
      (msg : TcpMsg Net) → Fits cs msg → decode cs (mode_of msg) (content cs msg) ≡ ok msg
  unfolding decode be32 heartbeat_type_from
  decode-content TcpMsg.get_idle_virtual_addr h = refl
  decode-content TcpMsg.fetch_peers h = refl
  decode-content (TcpMsg.get_idle_virtual_addr_res v) h = rw h
  decode-content (TcpMsg.register v) h = rw h
  decode-content (TcpMsg.register_res v) h = rw h
  decode-content (TcpMsg.node_map v) h = rw h
  decode-content (TcpMsg.upload_peers v) h = rw h
  decode-content (TcpMsg.fetch_peers_res v) h = rw h
  decode-content (TcpMsg.relay addr p) h = rw (from_be32-be32 addr h)
  decode-content (TcpMsg.heartbeat seq req) h = rw (from_be32-be32 seq h)
  decode-content (TcpMsg.heartbeat seq resp) h = rw (from_be32-be32 seq h)

module _ {Net : Type 0} (cs : Codecs Net) (key : Cipher) where
  -- A packet in two parts, its length among the first.
  read_sealed_lem :
      (size nonce mode x y : ℕ) (head body rest : List ℕ) (msg : TcpMsg Net)
      → 4 ≡ length head
      → key.decrypt head (at 0 nonce) ≡ magic_num ∷ mode ∷ x ∷ y ∷ []
      → from_be16 x y ≡ length body
      → 4 ≤ size
      → length body ≤ size
      → decode cs mode (key.decrypt body (at 4 nonce)) ≡ ok msg
      → read_sealed cs key size nonce (head ++ (body ++ rest)) ≡ ok (some (msg, rest))
  unfolding read_sealed
  read_sealed_lem size nonce mode x y head body rest msg hh hd hl hs hb hm = ground (
    arith,
    split_at-append 4 head (body ++ rest) hh,
    split_at-append (from_be16 x y) body rest hl,
  )

  module _ (lawful : IsCipher key) where
    open lawful use {length-encrypt, decrypt-encrypt, encrypt_append}

    -- What `read_msg` does at a framed message.
    read_framed :
        (size nonce mode : ℕ) (bytes rest : List ℕ) (msg : TcpMsg Net)
        → nonce < 2 ^ 16
        → length bytes < 2 ^ 16
        → 4 ≤ size
        → length bytes ≤ size
        → decode cs mode bytes ≡ ok msg
        → read_msg cs key size
            ((be16 nonce ++ key.encrypt (plain_frame mode bytes) (at 0 nonce)) ++ rest)
          ≡ ok (some (msg, rest))
    unfolding read_msg be16
    read_framed size nonce mode bytes rest msg hn hb hs hl hd =
        let head = magic_num ∷ mode ∷ be16 (length bytes) in
        let sealed = key.encrypt head (at 0 nonce) in
        let body = key.encrypt bytes (at 4 nonce) in
        let parts : key.encrypt (plain_frame mode bytes) (at 0 nonce) ++ rest
            ≡ sealed ++ (body ++ rest) =
          ap (λ l. l ++ rest) (encrypt_append head bytes 0 nonce) ∙ append_assoc sealed body rest in
        rw (from_be16-be16 nonce hn, parts)
          (read_sealed_lem size nonce mode (u8 (length bytes / 256)) (u8 (length bytes)) sealed body
            rest msg (sym (length-encrypt head 0 nonce)) (decrypt-encrypt head 0 nonce)
            (from_be16-be16 (length bytes) hb ∙ sym (length-encrypt bytes 4 nonce)) hs
            (rw (length-encrypt bytes 4 nonce) hl) (rw (decrypt-encrypt bytes 4 nonce) hd))

-- `encoded` writes `len` bytes at the start of a buffer as long as before, and a receiver with the
-- same key and a buffer of `size` bytes reads `msg` off a stream that begins with them, and leaves
-- what follows.
abbrev pub ReadsBack :
    {Net : Type 0} → Codecs Net → Cipher → ℕ → List ℕ → Written → ℕ → TcpMsg Net → Type 0
ReadsBack cs key size out encoded len msg =
    (out' : List ℕ) × (encoded ≡ ok (len, out'))
    × (length out' ≡ length out)
    × ((rest : List ℕ) → read_msg cs key size (take len out' ++ rest) ≡ ok (some (msg, rest)))

-- Every message that fits its frame, the sender's buffer and the receiver's is read back.
pub round_trip :
    {Net : Type 0} (cs : Codecs Net) (key : Cipher) (size nonce : ℕ) (msg : TcpMsg Net)
    (out : List ℕ)
    → IsCipher key
    → nonce < 2 ^ 16
    → Fits cs msg
    → length (content cs msg) < 2 ^ 16
    → 4 ≤ size
    → length (content cs msg) ≤ size
    → 6 + length (content cs msg) ≤ length out
    → ReadsBack cs key size out (encode cs key nonce msg out) (6 + length (content cs msg)) msg
unfolding be16
round_trip cs key size nonce msg (a ∷ b ∷ c ∷ d ∷ e ∷ f ∷ out) lawful hn hf hc hs hl ho =
    let bytes = content cs msg in
    let (old, rest, split, len) = split_at_enough (length bytes) out (omega arith) in
    let packet = be16 nonce ++ key.encrypt (plain_frame (mode_of msg) bytes) (at 0 nonce) in
    let long : length packet ≡ 6 + length bytes =
      omega (arith, lawful.length-encrypt (plain_frame (mode_of msg) bytes) 0 nonce) in
    let cut : take (6 + length bytes) (packet ++ rest) ≡ packet =
      ap (λ n. take n (packet ++ rest)) (sym long) ∙ take-length-append packet rest in
    (
      packet ++ rest,
      rw split (encode-framed cs key nonce msg a b c d e f old rest len hc),
      omega (arith, length-append packet rest, ap length split, length-append old rest),
      λ more.
          ap (λ p. read_msg cs key size (p ++ more)) cut
          ∙ read_framed cs key lawful size nonce (mode_of msg) bytes more msg hn hc hs hl
              (decode-content cs msg hf),
    )
round_trip cs key size nonce msg _ lawful hn hf hc hs hl ho = absurd (omega arith)
