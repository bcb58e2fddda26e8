-- ===== src/Flow/Limit.antt =====
-- What `push` does to the values of the pool, and the traffic that it lets through in a second.
use fubuki_test.Base.{
  ℕ, suc, ◌+◌, ◌≤◌, ◌<◌, ◌^◌, ◌≡◌, refl, sym, subst, ◌∙◌, true, false, Bool-cases, Option, none,
  some, Option-cases, none-absurd, unsome, List, [], ◌∷◌, ◌⊎◌, inl, inr, ltb, ◌==◌, ==_iff,
  if◌then◌else◌, arith,
}
use fubuki_test.Ipnet.{IpNet}
use fubuki_test.Flow.{
  Entry, FlowControl, PushResult, accept, reject, search, past, fetch_update, traffic_update,
  limit_opt, push, pushed, push_found, push_limited,
}
use fubuki_test.Flow.Pool.{value_of}

module _ (f : ℕ × ℕ → Option (ℕ × ℕ)) where
  abbrev update_found : List Entry → ℕ ⊎ ℕ → Option (List Entry)
  update_found pool (inl i) = fetch_update i f pool
  update_found pool (inr i) = none

  abbrev put : Entry → Option (List Entry) → Option (List Entry)
  put e none = none
  put e (some es) = some (e ∷ es)

  abbrev kept : List Entry → Option (List Entry) → List Entry
  kept es none = es
  kept es (some es') = es'

  kept-put :
      (e : Entry) (es : List Entry) (o : Option (List Entry))
      → kept (e ∷ es) (put e o) ≡ e ∷ kept es o
  kept-put e es none = refl
  kept-put e es (some es') = refl

  fetch_update-suc :
      (i : ℕ) (e : Entry) (es : List Entry)
      → fetch_update (suc i) f (e ∷ es) ≡ put e (fetch_update i f es)
  unfolding fetch_update
  fetch_update-suc i e es = elim (Option-cases (fetch_update i f es)) [
    | inl h ↦ ground (arith, h)
    | inr (es', h) ↦ ground (arith, h)
  ]

  update_past :
      (e : Entry) (es : List Entry) (r : ℕ ⊎ ℕ)
      → update_found (e ∷ es) (past r) ≡ put e (update_found es r)
  update_past e es (inl i) = fetch_update-suc i e es
  update_past e es (inr i) = refl

  -- The value that an update leaves.
  abbrev updated : Option (ℕ × ℕ) → Option (ℕ × ℕ)
  updated none = none
  updated (some v) = elim (f v) [ none ↦ some v | some w ↦ some w ]

  value_of-update :
      (a b : ℕ) (es : List Entry)
      → value_of b (kept es (update_found es (search a es)))
        ≡ (if b == a then updated (value_of a es) else value_of b es)
  unfolding search fetch_update
  value_of-update a b [] = ground arith
  value_of-update a b (e ∷ es) = elim (Bool-cases (ltb e.addr a)) [
    | inl less ↦ rw less (
        rw (update_past e es (search a es)) (
          rw (kept-put e es (update_found es (search a es)))
            (ground (arith, value_of-update a b es))))
    | inr more ↦ elim (Bool-cases (e.addr == a)) [
      | inl same ↦
          rw (more, same)
            (elim (Option-cases (f e.value)) [
              | inl h ↦ ground (arith, h)
              | inr (w, h) ↦ ground (arith, h)
            ])
      | inr other ↦ rw (more, other) (ground arith)
    ]
  ]

  abbrev result_of : Option (List Entry) → PushResult
  result_of none = reject
  result_of (some es) = accept

  result_of-put : (e : Entry) (o : Option (List Entry)) → result_of (put e o) ≡ result_of o
  result_of-put e none = refl
  result_of-put e (some es) = refl

  abbrev answer : Option (ℕ × ℕ) → PushResult
  answer none = reject
  answer (some v) = elim (f v) [ none ↦ reject | some w ↦ accept ]

  result-update :
      (a : ℕ) (es : List Entry) → result_of (update_found es (search a es)) ≡ answer (value_of a es)
  unfolding search fetch_update
  result-update a [] = refl
  result-update a (e ∷ es) = elim (Bool-cases (ltb e.addr a)) [
    | inl less ↦ rw less (
        rw (update_past e es (search a es))
          (result_of-put e (update_found es (search a es)) ∙ result-update a es))
    | inr more ↦ elim (Bool-cases (e.addr == a)) [
      | inl same ↦
          rw (more, same)
            (elim (Option-cases (f e.value)) [
              | inl h ↦ ground (arith, h)
              | inr (w, h) ↦ ground (arith, h)
            ])
      | inr other ↦ rw (more, other) refl
    ]
  ]

pushed_parts :
    (f : ℕ × ℕ → Option (ℕ × ℕ)) (pool : List Entry) (o : Option (List Entry))
    → pushed pool o ≡ (result_of f o, kept f pool o)
pushed_parts f pool none = refl
pushed_parts f pool (some es) = refl

push_found_parts :
    (limit packet_len now : ℕ) (pool : List Entry) (r : ℕ ⊎ ℕ)
    → let f = traffic_update limit packet_len now in
      push_found limit packet_len now pool r
      ≡ (result_of f (update_found f pool r), kept f pool (update_found f pool r))
push_found_parts limit packet_len now pool (inl i) =
    let f = traffic_update limit packet_len now in pushed_parts f pool (fetch_update i f pool)
push_found_parts limit packet_len now pool (inr i) = refl

-- The traffic that counts in the second `now`.
abbrev pub used : (now : ℕ) → Option (ℕ × ℕ) → ℕ
used now none = 0
used now (some (f, t)) = if t == now then f else 0

abbrev pub charged : PushResult → ℕ → ℕ
charged accept packet_len = packet_len
charged reject packet_len = 0

record IsCharged (limit now packet_len : ℕ) (old new : Option (ℕ × ℕ)) (r : PushResult)
    : Type 0 where
  counted : used now new ≡ used now old + charged r packet_len
  bounded : used now new ≤ limit

charge_value :
    (limit packet_len now : ℕ) (v : Option (ℕ × ℕ))
    → packet_len ≤ limit
    → limit + limit < 2 ^ 64
    → used now v ≤ limit
    → let f = traffic_update limit packet_len now in
      IsCharged limit now packet_len v (updated f v) (answer f v)
unfolding traffic_update
charge_value limit packet_len now none l b u = record { counted = refl; bounded = omega arith }
charge_value limit packet_len now (some (f, t)) l b u = record {
  counted = ground arith;
  bounded = ground arith;
}

-- The traffic to `a` in the second `now`, with what the result of a push of so much to `dst` adds.
abbrev pub charge_to : (a dst packet_len : ℕ) → PushResult → ℕ
charge_to a dst packet_len r = if a == dst then charged r packet_len else 0

record IsCounted (limit now a dst packet_len : ℕ) (pool : List Entry) (r : PushResult × List Entry)
    : Type 0 where
  total : used now (value_of a r.1) ≡ used now (value_of a pool) + charge_to a dst packet_len r.0
  within : used now (value_of a r.1) ≤ limit

module _ (limit now a : ℕ) where
  found-IsCounted :
      (packet_len : ℕ) (pool : List Entry)
      → packet_len ≤ limit
      → limit + limit < 2 ^ 64
      → used now (value_of a pool) ≤ limit
      → IsCounted limit now a a packet_len pool
          (push_found limit packet_len now pool (search a pool))
  found-IsCounted packet_len pool l b u =
      let f = traffic_update limit packet_len now in
      let o = update_found f pool (search a pool) in
      let same : (a == a) ≡ true = ground arith in
      let value : value_of a (kept f pool o) ≡ updated f (value_of a pool) =
        rw (value_of-update f a a pool, same) refl in
      let charge = charge_value limit packet_len now (value_of a pool) l b u in
      rw (push_found_parts limit packet_len now pool (search a pool)) (record {
        total = rw (value, result-update f a pool, same) charge.counted;
        within = rw value charge.bounded;
      })

  other-IsCounted :
      (limit' dst packet_len : ℕ) (pool : List Entry)
      → (a == dst) ≡ false
      → used now (value_of a pool) ≤ limit
      → IsCounted limit now a dst packet_len pool
          (push_found limit' packet_len now pool (search dst pool))
  other-IsCounted limit' dst packet_len pool other u =
      let f = traffic_update limit' packet_len now in
      let o = update_found f pool (search dst pool) in
      let value : value_of a (kept f pool o) ≡ value_of a pool =
        rw (value_of-update f dst a pool, other) refl in
      rw (push_found_parts limit' packet_len now pool (search dst pool))
        (record { total = rw (value, other) (omega arith); within = rw value u })

  rejected-IsCounted :
      (dst packet_len : ℕ) (pool : List Entry)
      → used now (value_of a pool) ≤ limit
      → IsCounted limit now a dst packet_len pool (reject, pool)
  rejected-IsCounted dst packet_len pool u = record { total = ground arith; within = u }

  accepted-IsCounted :
      (dst packet_len : ℕ) (pool : List Entry)
      → (a == dst) ≡ false
      → used now (value_of a pool) ≤ limit
      → IsCounted limit now a dst packet_len pool (accept, pool)
  accepted-IsCounted dst packet_len pool other u = record { total = ground arith; within = u }

  limited-IsCounted :
      (dst packet_len : ℕ) (pool : List Entry) (rule : Option ℕ)
      → (a == dst ≡ true → rule ≡ some limit)
      → limit + limit < 2 ^ 64
      → used now (value_of a pool) ≤ limit
      → IsCounted limit now a dst packet_len pool (push_limited now dst packet_len pool rule)
  limited-IsCounted dst packet_len pool none covered b u = elim (Bool-cases (a == dst)) [
    | inl same ↦ none-absurd (covered same)
    | inr other ↦ accepted-IsCounted dst packet_len pool other u
  ]
  limited-IsCounted dst packet_len pool (some limit') covered b u =
      elim (Bool-cases (ltb limit' packet_len)) [
        | inl over ↦ rw over (rejected-IsCounted dst packet_len pool u)
        | inr under ↦ rw under (elim (Bool-cases (a == dst)) [
          | inl same ↦
              let equal : a ≡ dst = (==_iff a dst).0 same in
              let limits : limit ≡ limit' = sym (unsome (covered same)) in
              subst
                (λ d.
                  IsCounted limit now a d packet_len pool
                    (push_found limit' packet_len now pool (search d pool)))
                equal
                (subst
                  (λ l.
                    IsCounted limit now a a packet_len pool
                      (push_found l packet_len now pool (search a pool)))
                  limits (found-IsCounted packet_len pool (ground arith) b u))
          | inr other ↦ other-IsCounted limit' dst packet_len pool other u
        ])
      ]

module _ {Net : Type 0} (ip : IpNet Net) where
  -- The traffic to `a` that is let through when packets, each a destination and a length, are
  -- pushed at one time.
  abbrev pub accepted : (now a : ℕ) → List (ℕ × ℕ) → FlowControl Net → ℕ
  accepted now a [] fc = 0
  accepted now a ((dst, len) ∷ ps) fc =
      let (r, fc') = push ip now dst len fc in charge_to a dst len r + accepted now a ps fc'

  -- In one second, the packets to an address that `push` accepts, among packets to any addresses,
  -- are in sum within the limit of the first rule that covers it, counted with the traffic that
  -- the pool has for it in that second; the limit is below 2 ^ 63.
  pub accepted-le-limit :
      (limit now a : ℕ) (ps : List (ℕ × ℕ)) (fc : FlowControl Net)
      → limit_opt ip fc.rule a ≡ some limit
      → limit + limit < 2 ^ 64
      → used now (value_of a fc.pool) ≤ limit
      → used now (value_of a fc.pool) + accepted now a ps fc ≤ limit
  unfolding push
  accepted-le-limit limit now a [] fc rule b u = omega arith
  accepted-le-limit limit now a ((dst, len) ∷ ps) fc rule b u =
      let step =
        limited-IsCounted limit now a dst len fc.pool (limit_opt ip fc.rule dst)
          (λ same. subst (λ d. limit_opt ip fc.rule d ≡ some limit) ((==_iff a dst).0 same) rule) b
          u in
      omega (
        arith,
        step.total,
        accepted-le-limit limit now a ps (push ip now dst len fc).1 rule b step.within,
      )
