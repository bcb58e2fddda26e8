-- ===== src/Protocol/Tcp/Safety.antt =====
-- `TcpMsg::read_msg` (src/common/net.rs) on a stream that anyone may write to.
use fubuki_test.Base.{ℕ, ◌<◌, ◌≡◌, ◌≢◌, List, [], ◌∷◌, ◌++◌, length, panic, arith, sym}
use fubuki_test.Base.Bytes.{from_be16}
use fubuki_test.Cipher.{Cipher}
use fubuki_test.Cipher.Laws.{at}
use fubuki_test.Protocol.{magic_num, heartbeat_type_from}
use fubuki_test.Protocol.Buffer.{slice_from-first32, split_at-append}
use fubuki_test.Protocol.Tcp.{Codecs}
use fubuki_test.Protocol.Tcp.Decode.{decode, read_sealed, read_msg}

module _ {Net : Type 0} (cs : Codecs Net) where
  -- No content makes `decode` panic, whatever its type.
  pub decode_never_panics : (mode : ℕ) (content : List ℕ) → decode cs mode content ≢ panic
  unfolding decode heartbeat_type_from
  decode_never_panics mode content = ground (arith, slice_from-first32 content)

  -- A header that announces more content than the receiver's buffer holds makes `read_msg` panic,
  -- where other bad input is an error.
  pub read_msg_overlong :
      (key : Cipher) (size a b mode x y : ℕ) (head rest : List ℕ)
      → length head ≡ 4
      → key.decrypt head (at 0 (from_be16 a b)) ≡ magic_num ∷ mode ∷ x ∷ y ∷ []
      → size < from_be16 x y
      → read_msg cs key size (a ∷ b ∷ (head ++ rest)) ≡ panic
  unfolding read_msg read_sealed
  read_msg_overlong key size a b mode x y head rest hl hd hs =
      ground (arith, split_at-append 4 head rest (sym hl))
