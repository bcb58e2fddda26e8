-- ===== src/Protocol/Udp/Seal.antt =====
-- The last step of every encoder of src/common/net.rs: `key.encrypt(&mut out[2..ret], &ctx)`.
use fubuki_test.Base.{ℕ, ◌+◌, ◌-◌, ◌≡◌, List, ◌∷◌, ◌++◌, length, ok, arith}
use fubuki_test.Cipher.{Cipher}
use fubuki_test.Cipher.Laws.{at}
use fubuki_test.Protocol.Buffer.{split_at-append}
use fubuki_test.Protocol.Udp.{seal}

pub seal_lem :
    (key : Cipher) (nonce ret x y : ℕ) (plain rest : List ℕ)
    → ret ≡ 2 + length plain
    → seal key nonce ret (x ∷ y ∷ (plain ++ rest))
      ≡ ok (ret, x ∷ y ∷ (key.encrypt plain (at 0 nonce) ++ rest))
seal_lem key nonce ret x y plain rest e =
    ground (arith, split_at-append (ret - 2) plain rest (omega arith))
