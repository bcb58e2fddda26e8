-- ===== src/Protocol/Tcp/Tests.antt =====
-- Runs of `TcpMsg` (src/common/net.rs) at concrete messages, with a stand-in for bincode.
use fubuki_test.Base.{ℕ, ◌+◌, ◌≡◌, refl, none, some, [], ◌∷◌, ◌++◌, map, replicate, panic, arith}
use fubuki_test.Cipher.{Cipher, xor, no_op_cipher, cipher_enum}
use fubuki_test.Cipher.Laws.{cipher_enum-IsCipher}
use fubuki_test.Protocol.{TcpMsg, PeerStatus}
use fubuki_test.Protocol.Tcp.{Codec, Codecs}
use fubuki_test.Protocol.Tcp.Decode.{read_msg}
use fubuki_test.Protocol.Tcp.Frame.{encode}
use fubuki_test.Protocol.Tcp.RoundTrip.{ReadsBack, round_trip}
use fubuki_test.Protocol.Tcp.Safety.{read_msg_overlong}

abbrev unused : {A : Type 0} → Codec A
unused = record { encode = λ _. []; decode = λ _. none }

-- Peers of which nothing but the address is known.
abbrev silent_peer : ℕ → PeerStatus
silent_peer a = record { addr = a; latency = none; packet_loss = none }

abbrev codecs : Codecs ℕ
codecs = record {
  idle_addr = unused;
  node_map = unused;
  register = unused;
  register_res = unused;
  upload_peers = record {
    encode = map (λ (p : PeerStatus). p.addr);
    decode = λ bytes. some (map silent_peer bytes);
  };
  fetch_peers_res = unused;
}

abbrev key : Cipher
key = cipher_enum (xor (record { basekey = 1 ∷ 2 ∷ replicate 30 0x5a }))

abbrev peers : TcpMsg ℕ
peers = TcpMsg.upload_peers (silent_peer 10 ∷ silent_peer 11 ∷ [])

round_trip_example :
    ReadsBack codecs key 100
      (replicate 9 0)
      (encode codecs key 0x1234 peers (replicate 9 0))
      (6 + 2)
      peers
round_trip_example =
    round_trip codecs key 100 0x1234 peers (replicate 9 0)
      (cipher_enum-IsCipher (xor (record { basekey = 1 ∷ 2 ∷ replicate 30 0x5a })) refl)
      (omega arith) refl (omega arith) (omega arith) (omega arith) (omega arith)

-- A length of 1025 against the server's buffer of 1024 bytes.
read_msg_overlong_example :
    read_msg codecs no_op_cipher 1024 (0 ∷ 1 ∷ (0x99 ∷ 0 ∷ 4 ∷ 1 ∷ [] ++ 5 ∷ 6 ∷ [])) ≡ panic
read_msg_overlong_example =
    read_msg_overlong codecs no_op_cipher 1024 0 1 0 4 1 (0x99 ∷ 0 ∷ 4 ∷ 1 ∷ []) (5 ∷ 6 ∷ []) refl
      refl (omega arith)
