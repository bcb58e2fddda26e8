-- ===== src/Heartbeat/Liveness.antt =====
-- How the status of a node's UDP path follows its heartbeats.
use fubuki_test.Base.{
  ℕ, zero, suc, ◌+◌, ◌<◌, ◌^◌, ◌≡◌, refl, Bool, true, false, ◌&&◌, ◌||◌, ◌∙◌, not, leb,
  if◌then◌else◌, arith, subst, ap, ◌-◌, some, ==_iff,
}
use fubuki_test.Base.Bytes.{u64}
use fubuki_test.Heartbeat.{
  UdpStatus, available, unavailable, is_available, HeartbeatCache, reply, check, ping, UdpPath,
  round, receive_resp, after_reply,
}

pub check_loss :
    (c : HeartbeatCache)
    → c.is_send ≡ true
    → c.is_reply ≡ false
    → (check c).packet_continuous_loss_count ≡ u64 (c.packet_continuous_loss_count + 1)
unfolding check
check_loss c s r = rw (s, r) refl

reply_match :
    (now : ℕ) (c : HeartbeatCache)
    → reply now c.seq c ≡ (
      some (now - c.send_time),
      record c {
        packet_continuous_loss_count = 0;
        packet_continuous_recv_count = u64 (c.packet_continuous_recv_count + 1);
        is_reply = true;
        last_elapsed = some (now - c.send_time);
      },
    )
unfolding reply
reply_match now c = rw ((==_iff c.seq c.seq).1 refl) refl

check_kept :
    (c : HeartbeatCache)
    → (c.is_send && not c.is_reply) ≡ false
    → check c ≡ record c { is_send = false }
unfolding check
check_kept c h = rw h refl

module _ {Addr : Type 0} where
  -- Rounds of the schedule with no response between them, at the moments `now`.
  abbrev pub silent_rounds : (limit n : ℕ) → (now : ℕ → ℕ) → UdpPath Addr → UdpPath Addr
  silent_rounds limit zero now path = path
  silent_rounds limit (suc n) now path = round limit (now n) (silent_rounds limit n now path)

  -- Rounds whose heartbeats are answered, by `replier n` at `back n`, before the next one.
  abbrev pub answered_rounds :
      (limit recv n : ℕ) → (now back : ℕ → ℕ) → (replier : ℕ → Addr) → UdpPath Addr → UdpPath Addr
  answered_rounds limit recv zero now back replier path = path
  answered_rounds limit recv (suc n) now back replier path =
      let sent = round limit (now n) (answered_rounds limit recv n now back replier path) in
      receive_resp recv (back n) (replier n) sent.cache.seq sent

  -- A heartbeat is on its way, and so many before it were lost in a row.
  pub record IsWaiting (losses : ℕ) (path : UdpPath Addr) : Type 0 where
    pub sent : path.cache.is_send ≡ true
    pub not_answered : path.cache.is_reply ≡ false
    pub lost : path.cache.packet_continuous_loss_count ≡ losses

  abbrev lapse : (limit losses : ℕ) → UdpStatus Addr → UdpStatus Addr
  lapse limit losses s = if leb limit losses then unavailable else s

  pub round-IsWaiting :
      (limit losses now : ℕ) (path : UdpPath Addr)
      → suc losses < 2 ^ 64
      → IsWaiting losses path
      → IsWaiting (suc losses) (round limit now path)
  unfolding round ping
  round-IsWaiting limit losses now path b w = record {
    sent = refl;
    not_answered = refl;
    lost = omega (arith, check_loss path.cache w.sent w.not_answered, w.lost);
  }

  lapse_step :
      (limit losses : ℕ) (s : UdpStatus Addr)
      → (if is_available (lapse limit losses s) && leb limit (suc losses)
          then unavailable
          else lapse limit losses s)
        ≡ lapse limit (suc losses) s
  lapse_step limit losses unavailable = ground arith
  lapse_step limit losses (available a) = ground arith

  round-status :
      (limit losses now : ℕ) (path : UdpPath Addr) (s : UdpStatus Addr)
      → suc losses < 2 ^ 64
      → IsWaiting losses path
      → path.status ≡ lapse limit losses s
      → (round limit now path).status ≡ lapse limit (suc losses) s
  unfolding round
  round-status limit losses now path s b w e =
      let l : (check path.cache).packet_continuous_loss_count ≡ suc losses =
        omega (arith, check_loss path.cache w.sent w.not_answered, w.lost) in
      rw (l, e) (lapse_step limit losses s)

  silent :
      (limit losses n : ℕ) (now : ℕ → ℕ) (path : UdpPath Addr)
      → losses < limit
      → losses + n < 2 ^ 64
      → IsWaiting losses path
      → IsWaiting (losses + n) (silent_rounds limit n now path)
        × ((silent_rounds limit n now path).status ≡ lapse limit (losses + n) path.status)
  silent limit losses zero now path b k w =
      (subst (λ m. IsWaiting m path) (omega arith) w, ground arith)
  silent limit losses (suc n) now path b k w =
      let (waits, status) = silent limit losses n now path b (omega arith) w in
      let last = silent_rounds limit n now path in
      (
        subst (λ m. IsWaiting m (round limit (now n) last)) (omega arith)
            (round-IsWaiting limit (losses + n) (now n) last (omega arith) waits),
        subst (λ m. (round limit (now n) last).status ≡ lapse limit m path.status) (omega arith)
            (round-status limit (losses + n) (now n) last path.status (omega arith) waits status),
      )

  -- Rounds without a response: the status is unavailable once the losses in a row have reached the
  -- limit, and until then what it was. The rounds start where a heartbeat is on its way and the
  -- losses are below the limit, and the losses fit the counter.
  pub silent_rounds-status :
      (limit losses n : ℕ) (now : ℕ → ℕ) (path : UdpPath Addr)
      → losses < limit
      → losses + n < 2 ^ 64
      → IsWaiting losses path
      → (silent_rounds limit n now path).status
        ≡ (if leb limit (losses + n) then unavailable else path.status)
  silent_rounds-status limit losses n now path b k w = (silent limit losses n now path b k w).1

  -- Every heartbeat sent was answered.
  pub record IsAnswered (received : ℕ) (path : UdpPath Addr) : Type 0 where
    pub answered : (path.cache.is_send && not path.cache.is_reply) ≡ false
    pub none_lost : path.cache.packet_continuous_loss_count ≡ 0
    pub received_in_row : path.cache.packet_continuous_recv_count ≡ received

  status_kept : (s : UdpStatus Addr) → (if is_available s && false then unavailable else s) ≡ s
  status_kept unavailable = refl
  status_kept (available a) = refl

  round_kept :
      (limit received now : ℕ) (path : UdpPath Addr)
      → 0 < limit
      → IsAnswered received path
      → round limit now path
        ≡ record { status = path.status; cache = ping now (record path.cache { is_send = false }) }
  unfolding round
  round_kept limit received now path k w =
      let below : leb limit path.cache.packet_continuous_loss_count ≡ false =
        ground (arith, w.none_lost) in
      rw (check_kept path.cache w.answered) (
        rw below (
          ap (λ s. record { status = s; cache = ping now (record path.cache { is_send = false }) })
            (status_kept path.status)))

  -- The status after a response to the last heartbeat.
  abbrev heard : (recv received : ℕ) → Addr → UdpStatus Addr → UdpStatus Addr
  heard recv received a s =
      if not (is_available s) && leb recv (suc received) then available a else s

  answered_round-IsAnswered :
      (limit recv received now back : ℕ) (a : Addr) (path : UdpPath Addr)
      → suc received < 2 ^ 64
      → 0 < limit
      → IsAnswered received path
      → let sent = round limit now path in
        let answered = receive_resp recv back a sent.cache.seq sent in
        IsAnswered (suc received) answered × (answered.status ≡ heard recv received a path.status)
  unfolding receive_resp after_reply ping
  answered_round-IsAnswered limit recv received now back a path b k w =
      let kept : HeartbeatCache = record path.cache { is_send = false } in
      rw (round_kept limit received now path k w) (
        rw (reply_match back (ping now kept)) (
          record {
            answered = refl;
            none_lost = refl;
            received_in_row = omega (arith, w.received_in_row);
          },
          ground (arith, w.received_in_row),
        ))

  heard_step :
      (recv m : ℕ) (a : Addr) (s : UdpStatus Addr) (was : Bool)
      → is_available s ≡ (was || leb recv m)
      → is_available (heard recv m a s) ≡ (was || leb recv (suc m))
  heard_step recv m a unavailable true h = ground (arith, h)
  heard_step recv m a unavailable false h = ground (arith, h)
  heard_step recv m a (available b) true h = refl
  heard_step recv m a (available b) false h = ground (arith, h)

  or_none :
      (s : UdpStatus Addr) (recv received : ℕ)
      → received < recv
      → is_available s ≡ (is_available s || leb recv (received + 0))
  or_none unavailable recv received l = ground arith
  or_none (available a) recv received l = refl

  answered :
      (limit recv received n : ℕ) (now back : ℕ → ℕ) (replier : ℕ → Addr) (path : UdpPath Addr)
      → 0 < limit
      → received < recv
      → received + n < 2 ^ 64
      → IsAnswered received path
      → IsAnswered (received + n) (answered_rounds limit recv n now back replier path)
        × (is_available (answered_rounds limit recv n now back replier path).status
            ≡ (is_available path.status || leb recv (received + n)))
  answered limit recv received zero now back replier path k l b w =
      (subst (λ m. IsAnswered m path) (omega arith) w, or_none path.status recv received l)
  answered limit recv received (suc n) now back replier path k l b w =
      let (keeps, status) =
        answered limit recv received n now back replier path k l (omega arith) w in
      let before = answered_rounds limit recv n now back replier path in
      let (next, heard') =
        answered_round-IsAnswered limit recv (received + n) (now n) (back n) (replier n) before
          (omega arith) k keeps in
      (
        subst (λ m. IsAnswered m (answered_rounds limit recv (suc n) now back replier path))
            (omega arith) next,
        ap is_available heard'
            ∙ heard_step recv (received + n) (replier n) before.status (is_available path.status)
                status
            ∙ ap (λ m. is_available path.status || leb recv m) (omega arith),
      )

  -- Rounds whose heartbeats are all answered: the status stays available, or becomes so exactly
  -- when the responses in a row have reached the number that it takes. The rounds start where no
  -- heartbeat is unanswered, fewer responses than that came in a row, both limits are positive,
  -- and the responses fit the counter.
  pub answered_rounds-status :
      (limit recv received n : ℕ) (now back : ℕ → ℕ) (replier : ℕ → Addr) (path : UdpPath Addr)
      → 0 < limit
      → received < recv
      → received + n < 2 ^ 64
      → IsAnswered received path
      → is_available (answered_rounds limit recv n now back replier path).status
        ≡ (is_available path.status || leb recv (received + n))
  answered_rounds-status limit recv received n now back replier path k l b w =
      (answered limit recv received n now back replier path k l b w).1
