-- ===== src/Protocol/Tcp/Decode.antt =====
-- `TcpMsg::decode` and `TcpMsg::read_msg` of src/common/net.rs. The stream is the list of the
-- bytes that are still to come before it ends; a read past the end fails.
use fubuki_test.Base.{
  ℕ, Option, none, some, List, Outcome, ok, err, ok_or, unwrap, ensure, check, ◌>>=◌, ◌>>◌, ◌==◌,
  leb, if◌then◌else◌, get_elem?, drop,
}
use fubuki_test.Cipher.{Cipher}
use fubuki_test.Protocol.{
  TcpMsg, heartbeat_type_from, ProtocolError, decode_error, magic_miss_match, invalid_tcp_msg,
  bincode_error, io_error, magic_num,
}
use fubuki_test.Protocol.Mode
use fubuki_test.Protocol.Buffer.{first16, first32, slice_from, split_at}
use fubuki_test.Protocol.Tcp.{Codec, Codecs}

abbrev pub value_decode :
    {A Net : Type 0} → Codec A → (A → TcpMsg Net) → List ℕ → Outcome ProtocolError (TcpMsg Net)
value_decode codec make content = do
  value ← ok_or (codec.decode content) bincode_error
  ok (make value)

abbrev pub relay_decode : {Net : Type 0} → List ℕ → Outcome ProtocolError (TcpMsg Net)
relay_decode content = do
  virtual_addr ← ok_or (first32 content) decode_error
  packet ← unwrap (slice_from 4 content)
  ok (TcpMsg.relay virtual_addr packet)

abbrev pub heartbeat_decode : {Net : Type 0} → List ℕ → Outcome ProtocolError (TcpMsg Net)
heartbeat_decode content = do
  seq ← ok_or (first32 content) decode_error
  value ← ok_or (get_elem? content 4) decode_error
  heartbeat_type ← heartbeat_type_from value
  ok (TcpMsg.heartbeat seq heartbeat_type)

module _ {Net : Type 0} (cs : Codecs Net) where
  unfoldable pub decode : ℕ → List ℕ → Outcome ProtocolError (TcpMsg Net)
  decode mode content =
      if mode == Mode.register
      then value_decode cs.register TcpMsg.register content
      else if mode == Mode.register_result
      then value_decode cs.register_res TcpMsg.register_res content
      else if mode == Mode.node_map
      then value_decode cs.node_map TcpMsg.node_map content
      else if mode == Mode.relay
      then relay_decode content
      else if mode == Mode.heartbeat
      then heartbeat_decode content
      else if mode == Mode.get_idle_virtual_addr
      then ok TcpMsg.get_idle_virtual_addr
      else if mode == Mode.get_idle_virtual_addr_res
      then value_decode cs.idle_addr TcpMsg.get_idle_virtual_addr_res content
      else if mode == Mode.upload_peers
      then value_decode cs.upload_peers TcpMsg.upload_peers content
      else if mode == Mode.fetch_peers
      then ok TcpMsg.fetch_peers
      else if mode == Mode.fetch_peers_res
      then value_decode cs.fetch_peers_res TcpMsg.fetch_peers_res content
      else err invalid_tcp_msg

  -- `none`: the stream ended before a message. Otherwise the message and what is left to read.
  abbrev pub Read : Type 0
  Read = Outcome ProtocolError (Option (TcpMsg Net × List ℕ))

  -- `read_msg` behind the nonce, with a buffer of `size` bytes.
  unfoldable pub read_sealed : Cipher → (size nonce : ℕ) → List ℕ → Read
  read_sealed key size nonce rx = do
    check (leb 4 size)
    (head, rest) ← ok_or (split_at 4 rx) io_error
    let plain = key.decrypt head (record { offset = 0; nonce = nonce })
    magic ← unwrap (get_elem? plain 0)
    ensure (magic == magic_num) magic_miss_match
    mode ← unwrap (get_elem? plain 1)
    len ← unwrap (first16 (drop 2 plain))
    check (leb len size)
    (body, rest') ← ok_or (split_at len rest) io_error
    msg ← decode mode (key.decrypt body (record { offset = 4; nonce = nonce }))
    ok (some (msg, rest'))

  unfoldable pub read_msg : Cipher → ℕ → List ℕ → Read
  read_msg key size rx = elim (first16 rx) [
    | none ↦ ok none
    | some nonce ↦ read_sealed key size nonce (drop 2 rx)
  ]
