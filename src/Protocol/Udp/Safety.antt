-- ===== src/Protocol/Udp/Safety.antt =====
-- `UdpMsg::decode` (src/common/net.rs) on bytes that anyone may have sent.
use fubuki_test.Base.{ℕ, ◌+◌, ◌*◌, ◌≡◌, ◌≢◌, List, [], ◌∷◌, err, panic, arith}
use fubuki_test.Cipher.{Cipher}
use fubuki_test.Cipher.Laws.{at}
use fubuki_test.Protocol.{magic_miss_match, magic_num}
use fubuki_test.Protocol.Buffer.{slice_from-first32, slice_from-get_elem?}
use fubuki_test.Protocol.Udp.{decode_heartbeat, decode_content, decode}

decode_content-ne-panic : (mode : ℕ) (content : List ℕ) → decode_content mode content ≢ panic
unfolding decode_content decode_heartbeat
decode_content-ne-panic mode content = ground (arith, slice_from-first32 content)

-- No packet, however short or corrupt, makes the decoder panic.
pub decode-ne-panic : (key : Cipher) (packet : List ℕ) → decode key packet ≢ panic
unfolding decode
decode-ne-panic key [] = ground arith
decode-ne-panic key (a ∷ []) = ground arith
decode-ne-panic key (a ∷ b ∷ sealed) =
    let plain = key.decrypt sealed (at 0 (a * 256 + b)) in
    grind (arith, decode_content-ne-panic, slice_from-get_elem? plain)

-- A packet that deciphers to at least two bytes, the first of which is not the magic number, is
-- refused for that, whatever the packet type behind it.
pub decode_magic :
    (key : Cipher) (a b magic mode : ℕ) (sealed content : List ℕ)
    → key.decrypt sealed (at 0 (a * 256 + b)) ≡ magic ∷ mode ∷ content
    → magic ≢ magic_num
    → decode key (a ∷ b ∷ sealed) ≡ err magic_miss_match
unfolding decode
decode_magic key a b magic mode sealed content hp hm = ground arith
