-- ===== src/Nodes/CrossNat/Served.antt =====
-- Every sender has one socket and one child, in all interleavings of the handler and the children
-- (src/node/cross_nat.rs).
use fubuki_test.Base.{
  ℕ, ◌+◌, ◌≡◌, refl, ◌∙◌, subst, inl, inr, Bool, true, false, Bool-cases, ◌&&◌, ◌||◌, not,
  Option-cases, List, [], ◌∷◌, ◌==◌, ℕ_discrete, if◌then◌else◌, Outcome, ok, ◌>>=◌, arith,
}
use fubuki_test.Nodes.CrossNat.{
  Mapping, Phase, waiting, binding, sending, stopped, SNat, Event, received, bound, sent, failed,
  replied, slept, child_failed, ended, passed, initial, remove_session, find_session, touch,
  has_child, finish, drop_child, is_idle, looked_up, handle, step, run,
}
use fubuki_test.Nodes.CrossNat.Children.{count, finish-count, drop_child-count, done-has}
use fubuki_test.Nodes.CrossNat.Sessions.{
  has, IsSorted, insert_session-returns, remove_session-returns, find_session-absent, touch-has,
  touch-IsSorted,
}

-- While the handler binds a socket for a sender, there is none.
abbrev Absent : Mapping → Phase → Type 0
Absent m waiting = Unit
Absent m (binding from) = has from m ≡ false
Absent m (sending from) = Unit
Absent m stopped = Unit

pub record IsServed (s : SNat) : Type 0 where
  pub sorted : IsSorted s.mapping
  pub counted : (b : ℕ) → count b s.children ≡ (if has b s.mapping then 1 else 0)
  pub absent : Absent s.mapping s.phase

looked_up-Absent :
    (from : ℕ) (m : Mapping) → IsSorted m → Absent m (looked_up from (find_session from m))
looked_up-Absent from m h = elim (Option-cases (find_session from m)) [
  | inl miss ↦ rw miss (find_session-absent from m h miss)
  | inr (s, hit) ↦ rw hit tt
]

one_more :
    (from b : ℕ) (s : SNat) (m : Mapping)
    → IsServed s
    → has b m ≡ (from == b || has b s.mapping)
    → has from s.mapping ≡ false
    → (if from == b then 1 else 0) + count b s.children ≡ (if has b m then 1 else 0)
one_more from b s m h e a = elim (ℕ_discrete from b) [
  | yes q ↦ ground (arith, q, e, h.counted b, subst (λ x. has x s.mapping ≡ false) q a)
  | no q ↦ ground (arith, q, e, h.counted b)
]

handle-Goes :
    (e : Event) (p : Phase) (s : SNat)
    → IsServed s
    → Absent s.mapping p
    → (s' : SNat) × (handle e p s ≡ ok s') × IsServed s'
unfolding handle
handle-Goes (received from) waiting s h a = (
  record s { phase = looked_up from (find_session from s.mapping) },
  refl,
  record {
    sorted = h.sorted;
    counted = h.counted;
    absent = looked_up-Absent from s.mapping h.sorted;
  },
)
handle-Goes bound (binding from) s h a =
    let (m, e, sorted, members) =
      insert_session-returns (record { from = from; update_time = s.now }) s.mapping h.sorted a in
    (
      record s {
        mapping = m;
        children = record { from = from; is_done = false } ∷ s.children;
        phase = sending from;
      },
      rw e refl,
      record { sorted = sorted; counted = λ b. one_more from b s m h (members b) a; absent = tt },
    )
handle-Goes sent (sending from) s h a = (
  record s { mapping = touch from s.now s.mapping; phase = waiting },
  refl,
  record {
    sorted = touch-IsSorted from s.now s.mapping h.sorted;
    counted = λ b. ground (arith, h.counted b, touch-has from s.now b s.mapping);
    absent = tt;
  },
)
handle-Goes failed (binding from) s h a = (
  record s { phase = stopped },
  refl,
  record { sorted = h.sorted; counted = h.counted; absent = tt },
)
handle-Goes failed (sending from) s h a = (
  record s { phase = stopped },
  refl,
  record { sorted = h.sorted; counted = h.counted; absent = tt },
)
handle-Goes _ _ s h a = (s, refl, h)

-- A removal of another sender's entry leaves a handler that binds without an entry.
removed-Absent :
    (from : ℕ) (p : Phase) (m m' : Mapping)
    → ((b : ℕ) → has b m' ≡ (not (from == b) && has b m))
    → Absent m p
    → Absent m' p
removed-Absent from waiting m m' e a = tt
removed-Absent from (binding other) m m' e a = ground (arith, e other, a)
removed-Absent from (sending other) m m' e a = tt
removed-Absent from stopped m m' e a = tt

touched-Absent : (from now : ℕ) (p : Phase) (m : Mapping) → Absent m p → Absent (touch from now m) p
touched-Absent from now waiting m a = tt
touched-Absent from now (binding other) m a = touch-has from now other m ∙ a
touched-Absent from now (sending other) m a = tt
touched-Absent from now stopped m a = tt

touched :
    (from : ℕ) (s : SNat)
    → IsServed s
    → IsServed (record s { mapping = touch from s.now s.mapping })
touched from s h = record {
  sorted = touch-IsSorted from s.now s.mapping h.sorted;
  counted = λ b. ground (arith, h.counted b, touch-has from s.now b s.mapping);
  absent = touched-Absent from s.now s.phase s.mapping h.absent;
}

finished :
    (from : ℕ) (s : SNat) → IsServed s → IsServed (record s { children = finish from s.children })
finished from s h = record {
  sorted = h.sorted;
  counted = λ b. finish-count from b s.children ∙ h.counted b;
  absent = h.absent;
}

-- Under a condition that does not matter.
abbrev either_of : Bool → SNat → SNat → Outcome (Unit {0}) SNat
either_of b s t = if b then ok t else ok s

either :
    (b : Bool) (s t : SNat)
    → IsServed s
    → IsServed t
    → (s' : SNat) × (either_of b s t ≡ ok s') × IsServed s'
either true s t h k = (t, refl, k)
either false s t h k = (s, refl, h)

one_less :
    (from b : ℕ) (s : SNat) (m : Mapping)
    → IsServed s
    → has b m ≡ (not (from == b) && has b s.mapping)
    → has from s.mapping ≡ true
    → has_child from true s.children ≡ true
    → count b (drop_child from s.children) ≡ (if has b m then 1 else 0)
one_less from b s m h e there done =
    let fewer = drop_child-count from b s.children done in
    elim (ℕ_discrete from b) [
      | yes q ↦
          let there' = subst (λ x. has x s.mapping ≡ true) q there in
          ground (arith, q, e, h.counted b, fewer, there')
      | no q ↦ ground (arith, q, e, h.counted b, fewer)
    ]

ending :
    (from : ℕ) (s : SNat)
    → IsServed s
    → has_child from true s.children ≡ true
    → (s' : SNat) × ((remove_session from s.mapping >>= λ mapping.
          ok (record s { mapping = mapping; children = drop_child from s.children }))
        ≡ ok s')
      × IsServed s'
ending from s h done =
    let there : has from s.mapping ≡ true =
      ground (arith, h.counted from, done-has from s.children done) in
    let (m, e, sorted, members) = remove_session-returns from s.mapping h.sorted there in
    (
      record s { mapping = m; children = drop_child from s.children },
      rw e refl,
      record {
        sorted = sorted;
        counted = λ b. one_less from b s m h (members b) there done;
        absent = removed-Absent from s.phase s.mapping m members h.absent;
      },
    )

step-IsServed : (e : Event) (s : SNat) → IsServed s → (s' : SNat) × (step e s ≡ ok s') × IsServed s'
unfolding step
step-IsServed (passed seconds) s h = (
  record s { now = s.now + seconds },
  refl,
  record { sorted = h.sorted; counted = h.counted; absent = h.absent },
)
step-IsServed (replied from) s h =
    either (has_child from false s.children) s (record s { mapping = touch from s.now s.mapping }) h
      (touched from s h)
step-IsServed (slept from) s h =
    either (has_child from false s.children && is_idle s.now (find_session from s.mapping)) s
      (record s { children = finish from s.children }) h (finished from s h)
step-IsServed (child_failed from) s h =
    either (has_child from false s.children) s (record s { children = finish from s.children }) h
      (finished from s h)
step-IsServed (ended from) s h = elim (Bool-cases (has_child from true s.children)) [
  | inl done ↦ rw done (ending from s h done)
  | inr not_done ↦ rw not_done (s, refl, h)
]
step-IsServed (received from) s h = handle-Goes (received from) s.phase s h h.absent
step-IsServed bound s h = handle-Goes bound s.phase s h h.absent
step-IsServed sent s h = handle-Goes sent s.phase s h h.absent
step-IsServed failed s h = handle-Goes failed s.phase s h h.absent

run-IsServed :
    (es : List Event) (s : SNat) → IsServed s → (s' : SNat) × (run es s ≡ ok s') × IsServed s'
unfolding run
run-IsServed [] s h = (s, refl, h)
run-IsServed (e ∷ es) s h =
    let (t, one, k) = step-IsServed e s h in
    let (u, rest, l) = run-IsServed es t k in (u, rw one rest, l)

-- Whatever events happen after the start of the handler, no unreachable!() of the handler and its
-- children is reached; then the mapping is sorted without duplicates, a sender has exactly one child
-- while it has an entry and none otherwise, and a sender for which a socket is bound has no entry.
pub run_from_start :
    (es : List Event) (now : ℕ) → (s : SNat) × (run es (initial now) ≡ ok s) × IsServed s
run_from_start es now =
    run-IsServed es (initial now) (record { sorted = tt; counted = λ b. refl; absent = tt })
