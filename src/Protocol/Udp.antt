-- ===== src/Protocol/Udp.antt =====
-- `UdpMsg` of src/common/net.rs: |nonce 2|magic 1|type 1|content|, all but the nonce enciphered.
-- An encoder returns the number of bytes and the buffer, a decoder the deciphered packet and the
-- message.
pub mod Seal
pub mod RoundTrip
pub mod Safety
mod Tests
use fubuki_test.Base.{
  ℕ, ◌+◌, ◌-◌, ◌*◌, ◌^◌, Option, none, some, List, [], ◌∷◌, ◌++◌, ◌==◌, if◌then◌else◌, get_elem?,
  take, drop, Outcome, ok, err, ok_or, unwrap, ensure, ◌>>=◌, ◌>>◌,
}
use fubuki_test.Base.Bytes.{be16, be32}
use fubuki_test.Cipher.{CipherContext, Cipher}
use fubuki_test.Protocol.{
  HeartbeatType, req, resp, type_byte, UdpMsg, heartbeat, payload, relay, ProtocolError,
  decode_error, magic_miss_match, invalid_udp_message, magic_num, udp_msg_header_len,
}
use fubuki_test.Protocol.Mode
use fubuki_test.Protocol.Buffer.{write_at, update_range, slice_from, first16, first32}

abbrev pub Written : Type 0
Written = Outcome ProtocolError (ℕ × List ℕ)

abbrev pub whole : ℕ → CipherContext
whole n = record { offset = 0; nonce = n }

-- `key.encrypt(&mut out[2..ret], &ctx); ret`
abbrev pub seal : Cipher → ℕ → ℕ → List ℕ → Written
seal key nonce ret out = do
  out' ← unwrap (update_range out 2 ret (λ bytes. key.encrypt bytes (whole nonce)))
  ok (ret, out')

abbrev pub header : ℕ → ℕ → List ℕ → Outcome ProtocolError (List ℕ)
header nonce mode out = do
  a ← unwrap (write_at out 0 (be16 nonce))
  b ← unwrap (write_at a 2 (magic_num ∷ []))
  unwrap (write_at b 3 (mode ∷ []))

unfoldable pub heartbeat_encode : Cipher → (nonce addr seq : ℕ) → HeartbeatType → List ℕ → Written
heartbeat_encode key nonce addr seq heartbeat_type out = do
  a ← header nonce Mode.heartbeat out
  b ← unwrap (write_at a 4 (be32 addr))
  c ← unwrap (write_at b 8 (be32 seq))
  d ← unwrap (write_at c 12 (type_byte heartbeat_type ∷ []))
  seal key nonce (udp_msg_header_len + 4 + 4 + 1) d

-- The content stands in the buffer already.
unfoldable pub data_encode : Cipher → (nonce packet_len : ℕ) → List ℕ → Written
data_encode key nonce packet_len out = do
  a ← header nonce Mode.payload out
  seal key nonce (udp_msg_header_len + packet_len) a

unfoldable pub relay_encode : Cipher → (nonce to packet_len : ℕ) → List ℕ → Written
relay_encode key nonce to packet_len out = do
  a ← header nonce Mode.relay out
  b ← unwrap (write_at a 4 (be32 to))
  seal key nonce (udp_msg_header_len + 4 + packet_len) b

decode_heartbeat : List ℕ → Outcome ProtocolError UdpMsg
decode_heartbeat content = do
  virtual_addr ← ok_or (first32 content) decode_error
  seq ← ok_or (first32 (drop 4 content)) decode_error
  kind ← ok_or (get_elem? content 8) decode_error
  (if kind == 0
      then ok (heartbeat virtual_addr seq req)
      else if kind == 1
      then ok (heartbeat virtual_addr seq resp)
      else err invalid_udp_message)

-- The `match mode`.
unfoldable pub decode_content : ℕ → List ℕ → Outcome ProtocolError UdpMsg
unfolding decode_heartbeat
decode_content mode content =
    if mode == Mode.payload
    then ok (payload content)
    else if mode == Mode.relay
    then (do
      virtual_addr ← ok_or (first32 content) decode_error
      rest ← unwrap (slice_from 4 content)
      ok (relay virtual_addr rest))
    else if mode == Mode.heartbeat
    then decode_heartbeat content
    else err invalid_udp_message

unfoldable pub decode : Cipher → List ℕ → Outcome ProtocolError (List ℕ × UdpMsg)
decode key packet = do
  nonce ← ok_or (first16 packet) decode_error
  sealed ← unwrap (slice_from 2 packet)
  let plain = key.decrypt sealed (whole nonce)
  magic ← ok_or (get_elem? plain 0) decode_error
  mode ← ok_or (get_elem? plain 1) decode_error
  content ← unwrap (slice_from 2 plain)
  ensure (magic == magic_num) magic_miss_match
  msg ← decode_content mode content
  ok (take 2 packet ++ plain, msg)
