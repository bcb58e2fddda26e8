-- ===== src/Nodes/Connection/Silence.antt =====
-- How long a connection lasts whose server is silent (src/node/mod.rs: the heartbeat schedule of
-- `tcp_handler`).
use fubuki_test.Base.{
  ℕ, zero, suc, ◌<◌, ◌≤◌, ◌^◌, ◌≡◌, refl, Bool, true, false, Bool-cases, inl, inr, leb, arith,
  Outcome, ok, err, panic, ◌>>=◌, ℕ_discrete,
}
use fubuki_test.Heartbeat as Heartbeat
use fubuki_test.Heartbeat.{HeartbeatCache, ping}
use fubuki_test.Heartbeat.Liveness.{check_loss}
use fubuki_test.Nodes.{Interface}
use fubuki_test.Nodes.Connection.{reset, tcp_beat}

-- Passes with no response between them, at the moments `now`.
abbrev pub silent_beats :
    (limit n : ℕ) → (now : ℕ → ℕ) → HeartbeatCache → Outcome (Unit {0}) HeartbeatCache
silent_beats limit zero now hc = ok hc
silent_beats limit (suc n) now hc =
    silent_beats limit n now hc >>= λ last. tcp_beat limit (now n) last

abbrev pub goes_on : {A : Type 0} → Outcome (Unit {0}) A → Bool
goes_on (ok a) = true
goes_on (err e) = false
goes_on panic = false

-- A heartbeat was sent that is not answered, and so many before it in a row.
record IsWaiting (losses : ℕ) (hc : HeartbeatCache) : Type 0 where
  sent : hc.is_send ≡ true
  not_answered : hc.is_reply ≡ false
  lost : hc.packet_continuous_loss_count ≡ losses

tcp_beat-waits :
    (limit losses now : ℕ) (hc : HeartbeatCache)
    → suc losses < limit
    → limit < 2 ^ 64
    → IsWaiting losses hc
    → (hc' : HeartbeatCache) × (tcp_beat limit now hc ≡ ok hc') × IsWaiting (suc losses) hc'
unfolding tcp_beat ping
tcp_beat-waits limit losses now hc below b w =
    let l : (Heartbeat.check hc).packet_continuous_loss_count ≡ suc losses =
      omega (arith, check_loss hc w.sent w.not_answered, w.lost) in
    let few : leb limit (Heartbeat.check hc).packet_continuous_loss_count ≡ false =
      ground (arith, l, below) in
    (
      ping now (Heartbeat.check hc),
      rw few refl,
      record { sent = refl; not_answered = refl; lost = l },
    )

tcp_beat-ends :
    (limit losses now : ℕ) (hc : HeartbeatCache)
    → suc losses ≡ limit
    → limit < 2 ^ 64
    → IsWaiting losses hc
    → tcp_beat limit now hc ≡ err tt
unfolding tcp_beat
tcp_beat-ends limit losses now hc e b w =
    let l : (Heartbeat.check hc).packet_continuous_loss_count ≡ suc losses =
      omega (arith, check_loss hc w.sent w.not_answered, w.lost) in
    let many : leb limit (Heartbeat.check hc).packet_continuous_loss_count ≡ true =
      ground (arith, l, e) in
    rw many refl

module _ {Net : Type 0} (inter : Interface Net) (limit : ℕ) (now : ℕ → ℕ) (b : limit < 2 ^ 64) where
  abbrev start : HeartbeatCache
  start = (reset inter).server_tcp_hc

  first_beat :
      0 < limit → (hc : HeartbeatCache) × (tcp_beat limit (now 0) start ≡ ok hc) × IsWaiting 0 hc
  unfolding tcp_beat reset Heartbeat.check ping
  first_beat h =
      let few : leb limit 0 ≡ false = ground (arith, h) in
      (
        ping (now 0) (record start { is_send = false }),
        rw few refl,
        record { sent = refl; not_answered = refl; lost = refl },
      )

  silent_beats-IsWaiting :
      (n : ℕ)
      → n < limit
      → (hc : HeartbeatCache) × (silent_beats limit (suc n) now start ≡ ok hc) × IsWaiting n hc
  silent_beats-IsWaiting zero h = first_beat h
  silent_beats-IsWaiting (suc n) h =
      let (hc, e, w) = silent_beats-IsWaiting n (omega arith) in
      let (hc', e', w') = tcp_beat-waits limit n (now (suc n)) hc h b w in (hc', rw e e', w')

  start_ends : limit ≡ 0 → tcp_beat limit (now 0) start ≡ err tt
  unfolding tcp_beat reset Heartbeat.check
  start_ends e = rw e refl

  last_beat : (n : ℕ) → limit ≡ n → silent_beats limit (suc n) now start ≡ err tt
  last_beat zero e = start_ends e
  last_beat (suc n) e =
      let (hc, e', w) = silent_beats-IsWaiting n (omega arith) in
      rw e' (tcp_beat-ends limit n (now (suc n)) hc (omega arith) b w)

  ended_beats :
      (n : ℕ)
      → (limit ≤ n → silent_beats limit (suc n) now start ≡ err tt)
      → limit ≤ suc n
      → silent_beats limit (suc (suc n)) now start ≡ err tt
  ended_beats n ended h = elim (ℕ_discrete limit (suc n)) [
    | yes e ↦ last_beat (suc n) e
    | no other ↦ rw (ended (omega (arith, other))) refl
  ]

  silent_beats-ends : (n : ℕ) → limit ≤ n → silent_beats limit (suc n) now start ≡ err tt
  silent_beats-ends zero h = last_beat zero (omega arith)
  silent_beats-ends (suc n) h = ended_beats n (λ k. silent_beats-ends n k) h

  -- After a reset, with no response from the server, the heartbeat schedule goes on for exactly as
  -- many passes as there is a limit on losses in a row, which fits its 64 bits, and the next pass ends it.
  pub silent_beats-goes_on :
      (n : ℕ) → goes_on (silent_beats limit n now (reset inter).server_tcp_hc) ≡ leb n limit
  silent_beats-goes_on zero = ground arith
  silent_beats-goes_on (suc n) = elim (Bool-cases (leb (suc n) limit)) [
    | inl within ↦
        let (hc, e, w) = silent_beats-IsWaiting n (ground (arith, within)) in rw (e, within) refl
    | inr over ↦ rw (silent_beats-ends n (ground (arith, over)), over) refl
  ]
