-- ===== src/Protocol/Tcp/Frame.antt =====
-- What every encoder of `TcpMsg` (src/common/net.rs) writes: the type and content of its message.
use fubuki_test.Base.{
  ℕ, ◌+◌, ◌^◌, ◌<◌, ◌≡◌, refl, List, [], ◌∷◌, ◌++◌, length, ok, unwrap, ◌>>=◌, arith,
}
use fubuki_test.Base.Bytes.{u16, be16, be32}
use fubuki_test.Cipher.{Cipher}
use fubuki_test.Cipher.Laws.{at}
use fubuki_test.Protocol.{TcpMsg, type_byte, magic_num}
use fubuki_test.Protocol.Mode
use fubuki_test.Protocol.Buffer.{write_at, write_at-append}
use fubuki_test.Protocol.Udp.Seal.{seal_lem}
use fubuki_test.Protocol.Udp.{Written, seal}
use fubuki_test.Protocol.Tcp.{
  Codec, Codecs, Decodes, value_encode, empty_encode, get_idle_virtual_addr_encode,
  fetch_peers_encode, get_idle_virtual_addr_res_encode, node_map_encode, register_encode,
  register_res_encode, upload_peers_encode, fetch_peers_res_encode, relay_encode, heartbeat_encode,
}

abbrev pub mode_of : {Net : Type 0} → TcpMsg Net → ℕ
mode_of TcpMsg.get_idle_virtual_addr = Mode.get_idle_virtual_addr
mode_of (TcpMsg.get_idle_virtual_addr_res v) = Mode.get_idle_virtual_addr_res
mode_of (TcpMsg.register r) = Mode.register
mode_of (TcpMsg.register_res r) = Mode.register_result
mode_of (TcpMsg.node_map m) = Mode.node_map
mode_of (TcpMsg.relay addr p) = Mode.relay
mode_of (TcpMsg.heartbeat seq t) = Mode.heartbeat
mode_of (TcpMsg.upload_peers ps) = Mode.upload_peers
mode_of TcpMsg.fetch_peers = Mode.fetch_peers
mode_of (TcpMsg.fetch_peers_res m) = Mode.fetch_peers_res

module _ {Net : Type 0} (cs : Codecs Net) where
  abbrev pub content : TcpMsg Net → List ℕ
  content TcpMsg.get_idle_virtual_addr = []
  content (TcpMsg.get_idle_virtual_addr_res v) = cs.idle_addr.encode v
  content (TcpMsg.register r) = cs.register.encode r
  content (TcpMsg.register_res r) = cs.register_res.encode r
  content (TcpMsg.node_map m) = cs.node_map.encode m
  content (TcpMsg.relay addr p) = be32 addr ++ p
  content (TcpMsg.heartbeat seq t) = be32 seq ++ type_byte t ∷ []
  content (TcpMsg.upload_peers ps) = cs.upload_peers.encode ps
  content TcpMsg.fetch_peers = []
  content (TcpMsg.fetch_peers_res m) = cs.fetch_peers_res.encode m

  -- The numbers of the message fit their fields, and bincode reads back what it carries.
  abbrev pub Fits : TcpMsg Net → Type 0
  Fits TcpMsg.get_idle_virtual_addr = Unit
  Fits (TcpMsg.get_idle_virtual_addr_res v) = Decodes cs.idle_addr v
  Fits (TcpMsg.register r) = Decodes cs.register r
  Fits (TcpMsg.register_res r) = Decodes cs.register_res r
  Fits (TcpMsg.node_map m) = Decodes cs.node_map m
  Fits (TcpMsg.relay addr p) = addr < 2 ^ 32
  Fits (TcpMsg.heartbeat seq t) = seq < 2 ^ 32
  Fits (TcpMsg.upload_peers ps) = Decodes cs.upload_peers ps
  Fits TcpMsg.fetch_peers = Unit
  Fits (TcpMsg.fetch_peers_res m) = Decodes cs.fetch_peers_res m

  -- The encoder that the program calls for a message. Before `relay_encode` its callers copy the
  -- packet to where the frame has it.
  abbrev pub encode : Cipher → ℕ → TcpMsg Net → List ℕ → Written
  encode key nonce TcpMsg.get_idle_virtual_addr = get_idle_virtual_addr_encode key nonce
  encode key nonce (TcpMsg.get_idle_virtual_addr_res v) =
      get_idle_virtual_addr_res_encode cs key nonce v
  encode key nonce (TcpMsg.register r) = register_encode cs key nonce r
  encode key nonce (TcpMsg.register_res r) = register_res_encode cs key nonce r
  encode key nonce (TcpMsg.node_map m) = node_map_encode cs key nonce m
  encode key nonce (TcpMsg.relay addr p) =
      λ out. unwrap (write_at out 10 p) >>= relay_encode key nonce addr (length p)
  encode key nonce (TcpMsg.heartbeat seq t) = heartbeat_encode key nonce seq t
  encode key nonce (TcpMsg.upload_peers ps) = upload_peers_encode cs key nonce ps
  encode key nonce TcpMsg.fetch_peers = fetch_peers_encode key nonce
  encode key nonce (TcpMsg.fetch_peers_res m) = fetch_peers_res_encode cs key nonce m

abbrev pub plain_frame : ℕ → List ℕ → List ℕ
plain_frame mode bytes = magic_num ∷ mode ∷ (be16 (length bytes) ++ bytes)

-- A packet with this content at the start of a buffer.
abbrev pub framed : Cipher → ℕ → ℕ → List ℕ → List ℕ → Written
framed key nonce mode bytes rest =
    ok (6 + length bytes, be16 nonce ++ key.encrypt (plain_frame mode bytes) (at 0 nonce) ++ rest)

module _ (key : Cipher) (nonce : ℕ) where
  seal-framed :
      (mode n : ℕ) (bytes rest : List ℕ)
      → n ≡ length bytes
      → length bytes < 2 ^ 16
      → seal key nonce (6 + n) (be16 nonce ++ magic_num ∷ mode ∷ (be16 (u16 n) ++ (bytes ++ rest)))
        ≡ framed key nonce mode bytes rest
  unfolding be16
  seal-framed mode n bytes rest e h =
      let whole : u16 (length bytes) ≡ length bytes = omega arith in
      rw (e, whole)
        (seal_lem key nonce (6 + length bytes) _ _ (plain_frame mode bytes) rest (omega arith))

  value-framed :
      {A : Type 0} (codec : Codec A) (mode a b c d e f : ℕ) (value : A) (old rest : List ℕ)
      → length old ≡ length (codec.encode value)
      → length (codec.encode value) < 2 ^ 16
      → value_encode codec mode key nonce value (a ∷ b ∷ c ∷ d ∷ e ∷ f ∷ (old ++ rest))
        ≡ framed key nonce mode (codec.encode value) rest
  unfolding value_encode be16
  value-framed codec mode a b c d e f value old rest l h =
      rw (write_at-append old (codec.encode value) rest l) (seal-framed mode _ _ rest refl h)

-- Every encoder frames its message where the buffer has room for it.
pub encode-framed :
    {Net : Type 0} (cs : Codecs Net) (key : Cipher) (nonce : ℕ) (msg : TcpMsg Net) (a b c d e f : ℕ)
    (old rest : List ℕ)
    → length old ≡ length (content cs msg)
    → length (content cs msg) < 2 ^ 16
    → encode cs key nonce msg (a ∷ b ∷ c ∷ d ∷ e ∷ f ∷ (old ++ rest))
      ≡ framed key nonce (mode_of msg) (content cs msg) rest
unfolding empty_encode relay_encode heartbeat_encode be16 be32
encode-framed cs key nonce TcpMsg.get_idle_virtual_addr a b c d e f [] rest l h =
    seal-framed key nonce Mode.get_idle_virtual_addr 0 [] rest refl h
encode-framed cs key nonce TcpMsg.fetch_peers a b c d e f [] rest l h =
    seal-framed key nonce Mode.fetch_peers 0 [] rest refl h
encode-framed cs key nonce (TcpMsg.heartbeat seq t) a b c d e f (o ∷ p ∷ q ∷ r ∷ s ∷ []) rest l h =
    seal-framed key nonce Mode.heartbeat 5 (be32 seq ++ type_byte t ∷ []) rest refl h
encode-framed cs key nonce (TcpMsg.relay addr p) a b c d e f (o ∷ q ∷ r ∷ s ∷ old) rest l h =
    rw (write_at-append old p rest (omega arith))
      (seal-framed key nonce Mode.relay (4 + length p) (be32 addr ++ p) rest (omega arith) h)
encode-framed cs key nonce (TcpMsg.get_idle_virtual_addr_res v) a b c d e f old rest l h =
    value-framed key nonce cs.idle_addr Mode.get_idle_virtual_addr_res a b c d e f v old rest l h
encode-framed cs key nonce (TcpMsg.register v) a b c d e f old rest l h =
    value-framed key nonce cs.register Mode.register a b c d e f v old rest l h
encode-framed cs key nonce (TcpMsg.register_res v) a b c d e f old rest l h =
    value-framed key nonce cs.register_res Mode.register_result a b c d e f v old rest l h
encode-framed cs key nonce (TcpMsg.node_map v) a b c d e f old rest l h =
    value-framed key nonce cs.node_map Mode.node_map a b c d e f v old rest l h
encode-framed cs key nonce (TcpMsg.upload_peers v) a b c d e f old rest l h =
    value-framed key nonce cs.upload_peers Mode.upload_peers a b c d e f v old rest l h
encode-framed cs key nonce (TcpMsg.fetch_peers_res v) a b c d e f old rest l h =
    value-framed key nonce cs.fetch_peers_res Mode.fetch_peers_res a b c d e f v old rest l h
encode-framed cs key nonce _ a b c d e f old rest l h = absurd (omega arith)
