-- ===== src/Protocol/Udp/Tests.antt =====
-- Runs of `UdpMsg` (src/common/net.rs) at concrete packets.
use fubuki_test.Base.{ℕ, ◌+◌, ◌≡◌, refl, List, [], ◌∷◌, ◌++◌, replicate, ok, err, arith}
use fubuki_test.Cipher.{Cipher, xor, no_op_cipher, cipher_enum}
use fubuki_test.Cipher.Laws.{IsCipher, cipher_enum-IsCipher}
use fubuki_test.Protocol.{relay, decode_error}
use fubuki_test.Protocol.Udp.{relay_encode, decode, decode_content}
use fubuki_test.Protocol.Udp.RoundTrip.{ReadsBack, relay_round_trip}

abbrev key : Cipher
key = cipher_enum (xor (record { basekey = 1 ∷ 2 ∷ replicate 30 0x5a }))

key-IsCipher : IsCipher key
key-IsCipher = cipher_enum-IsCipher (xor (record { basekey = 1 ∷ 2 ∷ replicate 30 0x5a })) refl

relay_round_trip_example :
    let out : List ℕ = 0 ∷ 0 ∷ 0 ∷ 0 ∷ 0 ∷ 0 ∷ 0 ∷ 0 ∷ (0x45 ∷ 0x11 ∷ [] ++ []) in
    ReadsBack key out
      (relay_encode key 0x1234 0x0a000002 2 out)
      (8 + 2)
      (relay 0x0a000002 (0x45 ∷ 0x11 ∷ []))
relay_round_trip_example =
    relay_round_trip key-IsCipher 0x1234 0x0a000002 0 0 0 0 0 0 0 0 (0x45 ∷ 0x11 ∷ []) []
      (omega arith) (omega arith)

short_packet : decode no_op_cipher (1 ∷ 2 ∷ 3 ∷ []) ≡ err decode_error
unfolding decode
short_packet = refl

plain_relay :
    decode no_op_cipher (0 ∷ 1 ∷ 0x99 ∷ 8 ∷ 10 ∷ 0 ∷ 0 ∷ 1 ∷ 42 ∷ [])
    ≡ ok (0 ∷ 1 ∷ 0x99 ∷ 8 ∷ 10 ∷ 0 ∷ 0 ∷ 1 ∷ 42 ∷ [], relay 0x0a000001 (42 ∷ []))
unfolding decode decode_content
plain_relay = refl
