-- ===== src/Nodes/Packets/Handlers/Room.antt =====
-- The packets for which the buffer of `send_packet_hook_handler` (src/node/mod.rs) has room.
use fubuki_test.Base.{
  ℕ, ◌+◌, ◌≤◌, ◌<◌, ◌≡◌, refl, ◌∙◌, ◌⊎◌, inl, inr, Bool, true, false, Bool-cases, Option, List, [],
  ◌∷◌, ◌++◌, take, drop, length, length-append, length-take, length-drop, leb, Outcome, ok, panic,
  if◌then◌else◌, arith,
}
use fubuki_test.Ipnet.{IpNet}
use fubuki_test.Protocol.{ProtocolError, udp_buff_size}
use fubuki_test.Routing.{RoutingTable}
use fubuki_test.Config.{NodeConfigFinalize}
use fubuki_test.Nodes.{Interface}
use fubuki_test.Nodes.NextHop.{Dijkstra}
use fubuki_test.Nodes.Sending.{Outside, Sending}
use fubuki_test.Nodes.Packets.{Direction, output, input, is_input, Hook, Sent, nothing, send_packet}
use fubuki_test.Nodes.Packets.Handlers.{copy_in, hook_pass, forward_for, kernel_for}

copy_in-fits :
    (packet buff : List ℕ)
    → 8 + length packet ≤ length buff
    → copy_in packet buff ≡ ok (take 8 buff ++ (packet ++ drop (8 + length packet) buff))
unfolding copy_in
copy_in-fits packet buff h =
    let fits : leb (8 + length packet) (length buff) ≡ true = ground (arith, h) in rw fits refl

copy_in-overlong :
    (packet buff : List ℕ) → length buff < 8 + length packet → copy_in packet buff ≡ panic
unfolding copy_in
copy_in-overlong packet buff h =
    let over : leb (8 + length packet) (length buff) ≡ false = ground (arith, h) in rw over refl

copied_length :
    (packet buff : List ℕ)
    → 8 + length packet ≤ length buff
    → length (take 8 buff ++ (packet ++ drop (8 + length packet) buff)) ≡ length buff
copied_length packet buff h =
    length-append (take 8 buff) (packet ++ drop (8 + length packet) buff)
    ∙ omega (
      arith,
      length-append packet (drop (8 + length packet) buff),
      length-take 8 buff,
      length-drop (8 + length packet) buff,
    )

forward-is_input : (d : Direction) (b : Bool) → forward_for d b ≡ (if is_input d then b else true)
forward-is_input input b = refl
forward-is_input output b = refl

kernel-is_input : (d : Direction) (b : Bool) → kernel_for d b ≡ (if is_input d then b else false)
kernel-is_input input b = refl
kernel-is_input output b = refl

module _ {Net T Addr : Type 0} (ip : IpNet Net) (dijkstra : Dijkstra) (out : Outside) (now : ℕ)
    (rt : RoutingTable Net T) (table : T) (nat : Bool) (interfaces : List (Interface Net))
    (nonce : ℕ → ℕ) (config : NodeConfigFinalize Net Addr) (hooks : Option Hook) where
  -- The packet stands in the buffer behind 8 bytes, and send_packet is given its place, with the
  -- flags of the configuration for a packet that comes in, and those of the TUN device for others.
  abbrev pub IsHanded : Direction → List ℕ → Sending → Outcome ProtocolError Sent → Type 0
  IsHanded direction packet s r =
      (before after : List ℕ) × (length before ≡ 8)
      × (length (before ++ (packet ++ after)) ≡ udp_buff_size)
      × (r
          ≡ send_packet ip dijkstra out now 8 (8 + length packet) rt table nat interfaces hooks
              nonce direction (if is_input direction then config.allow_packet_forward else true)
              (if is_input direction
                then config.allow_packet_not_in_rules_send_to_kernel
                else false)
              (record s { buff = before ++ (packet ++ after) }))

  -- With its buffer of 65535 bytes, the handler skips an empty packet, panics at one of more than
  -- 65527 bytes, and hands any other to send_packet, at its place behind 8 bytes of a buffer that
  -- keeps its length.
  pub hook_pass-cases :
      (direction : Direction) (packet : List ℕ) (s : Sending)
      → length s.buff ≡ udp_buff_size
      → let r =
          hook_pass ip dijkstra out now rt table nat interfaces nonce config hooks direction packet
            s in
        ((packet ≡ []) × (r ≡ ok nothing))
        ⊎ (((65527 < length packet) × (r ≡ panic))
            ⊎ ((length packet ≤ 65527) × IsHanded direction packet s r))
  unfolding hook_pass
  hook_pass-cases direction [] s h = inl (refl, refl)
  hook_pass-cases direction (b ∷ bs) s h =
      elim (Bool-cases (leb (8 + length (b ∷ bs)) (length s.buff))) [
        | inl fits ↦
            let le : 8 + length (b ∷ bs) ≤ length s.buff = ground (arith, fits) in
            inr (
              inr (
                omega (arith, le, h),
                (
                  take 8 s.buff,
                  drop (8 + length (b ∷ bs)) s.buff,
                  length-take 8 s.buff ∙ omega (arith, le),
                  copied_length (b ∷ bs) s.buff le ∙ h,
                  rw (copy_in-fits (b ∷ bs) s.buff le) (
                      rw
                        (
                          forward-is_input direction config.allow_packet_forward,
                          kernel-is_input direction config.allow_packet_not_in_rules_send_to_kernel,
                        )
                        refl),
                ),
              ))
        | inr over ↦
            let lt : length s.buff < 8 + length (b ∷ bs) = ground (arith, over) in
            inr (inl (omega (arith, lt, h), rw (copy_in-overlong (b ∷ bs) s.buff lt) refl))
      ]
