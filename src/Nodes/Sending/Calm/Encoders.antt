-- ===== src/Nodes/Sending/Calm/Encoders.antt =====
-- The encoders and answers that `send` (src/node/mod.rs) meets, none of which panics.
use fubuki_test.Base.{
  ℕ, ◌+◌, ◌-◌, ◌≤◌, ◌<◌, ◌^◌, ◌≡◌, sym, ap, ◌∙◌, subst, Bool, true, false, List, [], ◌∷◌, ◌++◌,
  length, length-append, ok, err, panic, ◌>>◌, check, arith,
}
use mathlib.Core.List.{append-nil}
use fubuki_test.Cipher.Laws.{IsCipher}
use fubuki_test.Protocol.{SocketAddr}
use fubuki_test.Protocol.Buffer.{split_at_enough}
use fubuki_test.Protocol.Udp as Udp
use fubuki_test.Protocol.Udp.{Written, seal}
use fubuki_test.Protocol.Udp.RoundTrip.{data_round_trip, relay_round_trip}
use fubuki_test.Nodes.{Interface}
use fubuki_test.Nodes.Sending.Delivery.{encode_in-slice}
use fubuki_test.Nodes.Sending.{
  Sending, SendResult, delivered, fatal, suppressed, Progress, ◌or_else◌, encode_in, answered,
  handed,
}

-- No panic, and a buffer of this length is left.
abbrev pub IsCalm : ℕ → Progress → Type 0
IsCalm n (ok (returned, s)) = length s.buff ≡ n
IsCalm n (err e) = Unit
IsCalm n panic = ⊥

pub or_else-IsCalm :
    (n : ℕ) (p : Progress) (next : Sending → Progress)
    → IsCalm n p
    → ((s : Sending) → length s.buff ≡ n → IsCalm n (next s))
    → IsCalm n (p or_else next)
or_else-IsCalm n (ok (true, s)) next c k = c
or_else-IsCalm n (ok (false, s)) next c k = k s c
or_else-IsCalm n (err e) next c k = c
or_else-IsCalm n panic next c k = elim c [ ]

pub answered-IsCalm :
    (n : ℕ) (r : SendResult) (to : SocketAddr) (bytes : List ℕ) (s : Sending)
    → length s.buff ≡ n
    → IsCalm n (answered r to bytes s)
answered-IsCalm n delivered to bytes s h = h
answered-IsCalm n fatal to bytes s h = tt
answered-IsCalm n suppressed to bytes s h = h

pub handed-IsCalm :
    (n : ℕ) (b : Bool) (bytes : List ℕ) (s : Sending)
    → length s.buff ≡ n
    → IsCalm n (handed b bytes s)
handed-IsCalm n true bytes s h = h
handed-IsCalm n false bytes s h = h

pub check-IsCalm :
    (n : ℕ) (b : Bool) (p : Progress) → b ≡ true → IsCalm n p → IsCalm n (check b >> p)
check-IsCalm n true p e c = c
check-IsCalm n false p e c = absurd (ground (arith, e))

-- An encoder that keeps the length of slices of this length.
abbrev pub Encodes : ℕ → (List ℕ → Written) → Type 0
Encodes n encode =
    (slice : List ℕ)
    → length slice ≡ n
    → (len : ℕ) × (out : List ℕ) × (encode slice ≡ ok (len, out)) × (length out ≡ n)

pub encode_in-keeps :
    (a stop : ℕ) (encode : List ℕ → Written) (buff : List ℕ)
    → a ≤ stop
    → stop ≤ length buff
    → Encodes (stop - a) encode
    → (packet buff' : List ℕ) × (encode_in a stop encode buff ≡ ok (packet, buff'))
      × (length buff' ≡ length buff)
encode_in-keeps a stop encode buff ha hs enc =
    let (x, y, e, l) = split_at_enough a buff (omega arith) in
    let whole : length buff ≡ length x + length y = ap length e ∙ length-append x y in
    let (u, v, e', l') = split_at_enough (stop - a) y (omega arith) in
    let rest : length y ≡ length u + length v = ap length e' ∙ length-append u v in
    let (len, out, ee, lo) = enc u l' in
    (
      out,
      x ++ (out ++ v),
      ap (encode_in a stop encode) (e ∙ ap (λ t. x ++ t) e')
          ∙ subst (λ k. encode_in k stop encode (x ++ (u ++ v)) ≡ ok (out, x ++ (out ++ v))) l
              (encode_in-slice x u v out stop len encode (omega arith) ee),
      omega (arith, length-append x (out ++ v), length-append out v),
    )

module _ {Net : Type 0} (inter : Interface Net) (lawful : IsCipher inter.key) (nonce : ℕ)
    (small : nonce < 2 ^ 16) where
  pub data-Encodes : (n : ℕ) → Encodes (4 + n) (Udp.data_encode inter.key nonce n)
  data-Encodes n (a ∷ b ∷ c ∷ d ∷ content) h =
      let e : n ≡ length content = omega arith in
      let (out, es, l, plain, d') = data_round_trip lawful nonce a b c d content [] small in
      (
        4 + length content,
        out,
        ap (λ m. Udp.data_encode inter.key nonce m (a ∷ b ∷ c ∷ d ∷ content)) e
            ∙ ap (λ l. Udp.data_encode inter.key nonce (length content) (a ∷ b ∷ c ∷ d ∷ l))
                (sym (append-nil content))
            ∙ es,
        omega (arith, l, length-append content []),
      )
  data-Encodes n _ h = absurd (omega arith)

  pub relay-Encodes :
      (n to : ℕ) → to < 2 ^ 32 → Encodes (8 + n) (Udp.relay_encode inter.key nonce to n)
  relay-Encodes n to ht (a ∷ b ∷ c ∷ d ∷ e ∷ f ∷ g ∷ h ∷ content) hl =
      let e' : n ≡ length content = omega arith in
      let (out, es, l, plain, d') =
        relay_round_trip lawful nonce to a b c d e f g h content [] small ht in
      (
        8 + length content,
        out,
        ap (λ m. Udp.relay_encode inter.key nonce to m (a ∷ b ∷ c ∷ d ∷ e ∷ f ∷ g ∷ h ∷ content)) e'
            ∙ ap
                (λ l.
                  Udp.relay_encode inter.key nonce to (length content)
                    (a ∷ b ∷ c ∷ d ∷ e ∷ f ∷ g ∷ h ∷ l))
                (sym (append-nil content))
            ∙ es,
        omega (arith, l, length-append content []),
      )
  relay-Encodes n to ht _ hl = absurd (omega arith)
