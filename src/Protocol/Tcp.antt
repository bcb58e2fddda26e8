-- ===== src/Protocol/Tcp.antt =====
-- `TcpMsg` of src/common/net.rs: |nonce 2|magic 1|type 1|length 2|content|, all but the nonce
-- enciphered. The content of most messages is written by `bincode`, which is a parameter.
pub mod Decode
pub mod Frame
pub mod RoundTrip
pub mod Safety
mod Tests
use fubuki_test.Base.{
  ℕ, ◌+◌, Option, none, some, List, [], ◌∷◌, ◌++◌, length, Outcome, ok, ok_or, unwrap, ◌>>=◌, ◌>>◌,
  ◌⊎◌, ◌≡◌,
}
use fubuki_test.Base.Bytes.{u16, be16, be32}
use fubuki_test.Cipher.{Cipher}
use fubuki_test.Protocol.{
  GroupContent, Register, RegisterError, Node, HeartbeatType, type_byte, PeerStatus, ProtocolError,
  bincode_error, tcp_msg_header_len,
}
use fubuki_test.Protocol.Mode
use fubuki_test.Protocol.Buffer.{write_at}
use fubuki_test.Protocol.Udp.{Written, seal, header}

-- `bincode` at one type: the bytes of a value, and the value that some bytes begin with.
pub record Codec (A : Type 0) : Type 0 where
  pub encode : A → List ℕ
  pub decode : List ℕ → Option A

-- bincode's documented round trip, at one value: it is decoded from the bytes it was encoded to.
abbrev pub Decodes : {A : Type 0} → Codec A → A → Type 0
Decodes codec a = codec.decode (codec.encode a) ≡ some a

-- The types that messages carry. A map is the list of its entries.
pub record Codecs (Net : Type 0) : Type 0 where
  pub idle_addr : Codec (Option (ℕ × Net))
  pub node_map : Codec (List (ℕ × Node Net))
  pub register : Codec (Register Net)
  pub register_res : Codec (RegisterError ⊎ GroupContent Net)
  pub upload_peers : Codec (List PeerStatus)
  pub fetch_peers_res : Codec (List (ℕ × List PeerStatus))

-- The body of the encoders that use bincode: header, `encode_into_slice` behind it, the size, and
-- the cipher.
unfoldable pub value_encode : {A : Type 0} → Codec A → ℕ → Cipher → ℕ → A → List ℕ → Written
value_encode codec mode key nonce value out = do
  a ← header nonce mode out
  let bytes = codec.encode value
  b ← ok_or (write_at a tcp_msg_header_len bytes) bincode_error
  c ← unwrap (write_at b 4 (be16 (u16 (length bytes))))
  seal key nonce (tcp_msg_header_len + length bytes) c

-- The encoders of messages with no content.
unfoldable pub empty_encode : ℕ → Cipher → ℕ → List ℕ → Written
empty_encode mode key nonce out = do
  a ← header nonce mode out
  b ← unwrap (write_at a 4 (be16 0))
  seal key nonce tcp_msg_header_len b

abbrev pub get_idle_virtual_addr_encode : Cipher → ℕ → List ℕ → Written
get_idle_virtual_addr_encode = empty_encode Mode.get_idle_virtual_addr

abbrev pub fetch_peers_encode : Cipher → ℕ → List ℕ → Written
fetch_peers_encode = empty_encode Mode.fetch_peers

module _ {Net : Type 0} (cs : Codecs Net) where
  abbrev pub get_idle_virtual_addr_res_encode : Cipher → ℕ → Option (ℕ × Net) → List ℕ → Written
  get_idle_virtual_addr_res_encode = value_encode cs.idle_addr Mode.get_idle_virtual_addr_res

  abbrev pub node_map_encode : Cipher → ℕ → List (ℕ × Node Net) → List ℕ → Written
  node_map_encode = value_encode cs.node_map Mode.node_map

  abbrev pub register_encode : Cipher → ℕ → Register Net → List ℕ → Written
  register_encode = value_encode cs.register Mode.register

  abbrev pub register_res_encode :
      Cipher → ℕ → (RegisterError ⊎ GroupContent Net) → List ℕ → Written
  register_res_encode = value_encode cs.register_res Mode.register_result

  abbrev pub upload_peers_encode : Cipher → ℕ → List PeerStatus → List ℕ → Written
  upload_peers_encode = value_encode cs.upload_peers Mode.upload_peers

  abbrev pub fetch_peers_res_encode : Cipher → ℕ → List (ℕ × List PeerStatus) → List ℕ → Written
  fetch_peers_res_encode = value_encode cs.fetch_peers_res Mode.fetch_peers_res

-- The packet stands in the buffer already, behind the header and the address.
unfoldable pub relay_encode : Cipher → (nonce to packet_size : ℕ) → List ℕ → Written
relay_encode key nonce to packet_size out = do
  a ← header nonce Mode.relay out
  b ← unwrap (write_at a 4 (be16 (u16 (4 + packet_size))))
  c ← unwrap (write_at b tcp_msg_header_len (be32 to))
  seal key nonce (tcp_msg_header_len + (4 + packet_size)) c

unfoldable pub heartbeat_encode : Cipher → (nonce seq : ℕ) → HeartbeatType → List ℕ → Written
heartbeat_encode key nonce seq heartbeat_type out = do
  a ← header nonce Mode.heartbeat out
  b ← unwrap (write_at a 4 (be16 (u16 (4 + 1))))
  c ← unwrap (write_at b tcp_msg_header_len (be32 seq))
  d ← unwrap (write_at c (tcp_msg_header_len + 4) (type_byte heartbeat_type ∷ []))
  seal key nonce (tcp_msg_header_len + (4 + 1)) d
