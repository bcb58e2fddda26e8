-- ===== src/Nodes/Tests/Delivery.antt =====
-- Runs of sending at a concrete interface.
use fubuki_test.Base.{
  ℕ, ◌+◌, ◌++◌, replicate, ◌≡◌, refl, true, false, List, [], ◌∷◌, arith, ok, length,
}
use fubuki_test.Cipher.Laws.{at}
use fubuki_test.Nodes.{extended_from}
use fubuki_test.Nodes.Sending.{Outside, delivered, suppressed, Sending, send, datagram}
use fubuki_test.Nodes.Sending.Calm.{Returns, send-Returns}
use fubuki_test.Nodes.Sending.Delivery.{Decodes, send-IsRead}
use fubuki_test.Nodes.Sending.Twice.{send_all-enciphers_twice}
use fubuki_test.Nodes.Packets.{send_all}
use fubuki_test.Nodes.Tests.{
  direct-IsPathSearch, interface, interface-IsCipher, reached, at_port, direct,
}

abbrev all_delivered : Outside
all_delivered = record { send_msg = λ n. delivered; try_send = λ n. true }

-- Two bytes before the packet and one behind it.
abbrev with_content : Sending
with_content = record {
  buff = 1 ∷ 2 ∷ 0 ∷ 0 ∷ 0 ∷ 0 ∷ 69 ∷ 70 ∷ 71 ∷ 9 ∷ [];
  cache = [];
  attempts = 0;
  sent = [];
}

read_example :
    (s' : Sending) × (packet : List ℕ) × (send direct all_delivered 5 300 interface 6 9 true
        (reached 167772162 80)
        interface.node_list
        with_content
      ≡ ok s')
    × (s'.sent ≡ datagram (at_port 80) packet ∷ [])
    × Decodes interface.key packet (69 ∷ 70 ∷ 71 ∷ [])
    × (length s'.buff ≡ 10)
unfolding extended_from
read_example =
    send-IsRead direct all_delivered 5 300 interface (1 ∷ 2 ∷ []) (0 ∷ 0 ∷ 0 ∷ 0 ∷ [])
      (69 ∷ 70 ∷ 71 ∷ []) (9 ∷ []) (at_port 80) with_content true (reached 167772162 80)
      interface.node_list interface-IsCipher (omega arith) refl refl refl refl (refl, refl) refl

abbrev drawn : ℕ → ℕ
drawn n = 300 + n

twice_example :
    (s' : Sending) × (first second : List ℕ) × (send_all direct all_delivered 5 6 9 drawn interface
        interface.node_list interface.node_list with_content
      ≡ ok s')
    × (s'.sent ≡ datagram (at_port 81) second ∷ datagram (at_port 80) first ∷ [])
    × Decodes interface.key first (69 ∷ 70 ∷ 71 ∷ [])
    × Decodes interface.key second (interface.key.encrypt (69 ∷ 70 ∷ 71 ∷ []) (at 2 300))
unfolding extended_from
twice_example =
    send_all-enciphers_twice direct all_delivered 5 drawn interface interface-IsCipher (1 ∷ 2 ∷ [])
      (0 ∷ 0 ∷ 0 ∷ 0 ∷ []) (69 ∷ 70 ∷ 71 ∷ []) (9 ∷ []) (at_port 80) (at_port 81) with_content
      (reached 167772162 80) (reached 167772163 81) interface.node_list refl refl refl refl refl
      (omega arith) (omega arith)
      (record { is_other = λ e. ground (arith, e); is_direct = (refl, refl); is_available = refl })
      (record { is_other = λ e. ground (arith, e); is_direct = (refl, refl); is_available = refl })

-- The packet stands behind 8 bytes; the first send is suppressed, and the channel is full.
abbrev pub behind_eight : Sending
behind_eight = record {
  buff = replicate 8 0 ++ (69 ∷ 70 ∷ 71 ∷ []);
  cache = [];
  attempts = 0;
  sent = [];
}

abbrev pub all_suppressed : Outside
all_suppressed = record { send_msg = λ n. suppressed; try_send = λ n. false }

calm_example : Returns 11 (
    send direct all_suppressed 5 300 interface 8 11 true
      (reached 167772162 80)
      interface.node_list
      behind_eight)
unfolding extended_from
calm_example =
    send-Returns interface 300 direct all_suppressed 5 8 11 true (reached 167772162 80)
      interface.node_list behind_eight interface-IsCipher (omega arith) direct-IsPathSearch
      (omega arith) (omega arith) (omega arith) (omega arith) (omega arith) (λ e. ground (arith, e))
      ((λ e. refl, λ e. refl), λ e. refl)
