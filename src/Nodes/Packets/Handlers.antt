-- ===== src/Nodes/Packets/Handlers.antt =====
-- The three loops that hand packets to `PacketSender::send_packet`, pass by pass: `tun_handler` and
-- `send_packet_hook_handler` (src/node/mod.rs), and `netstatck_handler` (src/node/cross_nat.rs). Each
-- has a buffer of its own; what a loop receives is a parameter.
pub mod Room
use fubuki_test.Base.{
  ℕ, ◌+◌, ◌≤◌, ◌<◌, ◌≡◌, refl, ap, ◌∙◌, Bool, true, false, Option, none, List, [], ◌∷◌, ◌++◌, take,
  drop, length, ltb, leb, if◌then◌else◌, Outcome, ok, panic, check, ◌>>=◌, ◌>>◌, arith,
}
use fubuki_test.Ipnet.{IpNet}
use fubuki_test.Protocol.{ProtocolError, udp_buff_size}
use fubuki_test.Routing.{RoutingTable}
use fubuki_test.Config.{NodeConfigFinalize}
use fubuki_test.Nodes.{Interface}
use fubuki_test.Nodes.NextHop.{Dijkstra}
use fubuki_test.Nodes.Sending.{Outside, Sending}
use fubuki_test.Nodes.Packets.{Direction, output, input, Hook, Sent, nothing, send_packet}

-- `UDP_MSG_HEADER_LEN + size_of::<VirtualAddr>()`
abbrev pub start_at : ℕ
start_at = 8

-- `buff[start..start + packet.len()].copy_from_slice(&packet)`
unfoldable pub copy_in : (packet buff : List ℕ) → Outcome ProtocolError (List ℕ)
copy_in packet buff =
    check (leb (start_at + length packet) (length buff))
    >> ok (take start_at buff ++ (packet ++ drop (start_at + length packet) buff))

-- The flags of the two arms of `match direction`.
abbrev pub forward_for : Direction → (allow_packet_forward : Bool) → Bool
forward_for input allow_packet_forward = allow_packet_forward
forward_for output allow_packet_forward = true

abbrev pub kernel_for : Direction → (to_kernel : Bool) → Bool
kernel_for input to_kernel = to_kernel
kernel_for output to_kernel = false

module _ {Net T : Type 0} (ip : IpNet Net) (dijkstra : Dijkstra) (out : Outside) (now : ℕ)
    (rt : RoutingTable Net T) (table : T) (nat : Bool) (interfaces : List (Interface Net))
    (nonce : ℕ → ℕ) where
  -- `recv_packet` writes a packet that fits into the rest of the buffer.
  unfoldable pub tun_pass : Option Hook → (packet : List ℕ) → Sending → Outcome ProtocolError Sent
  tun_pass hooks [] s = ok nothing
  tun_pass hooks (b ∷ bs) s = do
    buff ← copy_in (b ∷ bs) s.buff
    send_packet ip dijkstra out now start_at (start_at + length (b ∷ bs)) rt table nat interfaces
        hooks nonce output true false (record s { buff = buff })

  -- The hooks that `start` gives this task are none.
  unfoldable pub hook_pass :
      {Addr : Type 0}
      → NodeConfigFinalize Net Addr
      → Option Hook
      → Direction
      → (packet : List ℕ) → Sending
      → Outcome ProtocolError Sent
  hook_pass config hooks direction [] s = ok nothing
  hook_pass config hooks direction (b ∷ bs) s = do
    buff ← copy_in (b ∷ bs) s.buff
    send_packet ip dijkstra out now start_at (start_at + length (b ∷ bs)) rt table nat interfaces
        hooks nonce direction (forward_for direction config.allow_packet_forward)
        (kernel_for direction config.allow_packet_not_in_rules_send_to_kernel)
        (record s { buff = buff })

  -- A packet of the network stack, which waits for the interfaces; empty ones are not skipped.
  unfoldable pub netstack_pass :
      (ready : Bool) → Option Hook → (packet : List ℕ) → Sending → Outcome ProtocolError Sent
  netstack_pass ready hooks packet s =
      let sent = copy_in packet s.buff >>= λ buff.
      send_packet ip dijkstra out now start_at (start_at + length packet) rt table false interfaces
        hooks nonce output true false (record s { buff = buff }) in
      if ready then sent else ok nothing
