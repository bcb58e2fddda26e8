-- ===== src/Allocator/Interleaving.antt =====
-- Threads that allocate at the same time: the pieces that they are given never overlap.
use mathlib.Core.Path.{Path}
use fubuki_test.Base.{
  ok-inv, ℕ, suc, ◌+◌, ◌≤◌, ◌<◌, ◌≡◌, ◌≢◌, refl, sym, ◌∙◌, subst, ◌⊎◌, inl, inr, Bool, Bool-cases,
  Option, none, some, List, [], ◌∷◌, All, All-map, ltb, ◌==◌, arith, Outcome, ok, err, panic, not,
  ◌&&◌,
}
use fubuki_test.Allocator.{
  Bytes, buffer_size, new, split_mut, Attempt, too_long, retries, takes, attempt, Shared, cut,
  fresh, alloc_locked, install,
}

abbrev pub handed : Attempt → List Bytes → List Bytes
handed (takes p) ps = p ∷ ps
handed (too_long e) ps = ps
handed (retries seen) ps = ps

-- A step of any thread, with the pieces given so far: a pass of the loop in `split`, with whatever
-- value the thread saw last, or `alloc` under the writer's lock.
pub data Step : Shared → List Bytes → Shared → List Bytes → Type 0 where
  passes :
      {s : Shared} {ps : List Bytes} {b : Bytes} (spurious : Bool) (size seen : ℕ)
      → s.buffer ≡ some b
      → Step s ps
          (record s { buffer = some (attempt spurious size seen b).1 })
          (handed (attempt spurious size seen b).0 ps)
  locks :
      {s s' : Shared} {ps : List Bytes} {p : Bytes} (size : ℕ)
      → alloc_locked size s ≡ ok (p, s')
      → Step s ps s' (p ∷ ps)

abbrev pub IsApart : Bytes → Bytes → Type 0
IsApart p q = (p.inner ≢ q.inner) ⊎ ((p.end ≤ q.start) ⊎ (q.end ≤ p.start))

-- No two pieces share a byte.
abbrev pub AreApart : List Bytes → Type 0
AreApart [] = Unit
AreApart (p ∷ ps) = All (IsApart p) ps × AreApart ps

-- A piece is of memory that exists, and if that is the buffer's, of the part already given.
abbrev IsGiven : ℕ → Option Bytes → Bytes → Type 0
IsGiven next none p = p.inner < next
IsGiven next (some b) p = (p.inner < next) × ((p.inner ≢ b.inner) ⊎ (p.end ≤ b.start))

abbrev Exists : ℕ → Option Bytes → Type 0
Exists next none = Unit {0}
Exists next (some b) = b.inner < next

record IsSound (s : Shared) (ps : List Bytes) : Type 0 where
  apart : AreApart ps
  given : All (IsGiven s.next s.buffer) ps
  buffered : Exists s.next s.buffer

record IsCut (size : ℕ) (b p rest : Bytes) : Type 0 where
  same_memory : p.inner ≡ b.inner
  from_start : p.start ≡ b.start
  to_end : p.end ≡ b.start + size
  rest_memory : rest.inner ≡ b.inner
  rest_start : rest.start ≡ b.start + size

split_mut-IsCut :
    (size : ℕ) (b p rest : Bytes) → split_mut size b ≡ ok (p, rest) → IsCut size b p rest
unfolding split_mut
split_mut-IsCut size b p rest h = elim (Bool-cases (ltb b.end (b.start + size))) [
  | inl long ↦ ground (arith, long, h)
  | inr fits ↦ record {
    same_memory = ground (arith, fits, h);
    from_start = ground (arith, fits, h);
    to_end = ground (arith, fits, h);
    rest_memory = ground (arith, fits, h);
    rest_start = ground (arith, fits, h);
  }
]

-- A piece off the buffer.
cut-IsSound :
    (size next : ℕ) (b p rest : Bytes) (ps : List Bytes)
    → IsCut size b p rest
    → IsSound (record { buffer = some b; next = next }) ps
    → IsSound (record { buffer = some rest; next = next }) (p ∷ ps)
cut-IsSound size next b p rest ps c i = record {
  apart = (All-map (IsGiven next (some b)) (λ q g. apart_of q g.1) ps i.given, i.apart);
  given = (
    (omega (arith, c.same_memory, i.buffered), inr (omega (arith, c.to_end, c.rest_start))),
    All-map (IsGiven next (some b)) (λ q g. (g.0, later q g.1)) ps i.given,
  );
  buffered = omega (arith, c.rest_memory, i.buffered);
}
  where
    apart_of : (q : Bytes) → (q.inner ≢ b.inner) ⊎ (q.end ≤ b.start) → IsApart p q
    apart_of q (inl other) = inl (λ e. other (sym e ∙ c.same_memory))
    apart_of q (inr before) = inr (inr (omega (arith, c.from_start)))

    later :
        (q : Bytes)
        → (q.inner ≢ b.inner) ⊎ (q.end ≤ b.start)
        → (q.inner ≢ rest.inner) ⊎ (q.end ≤ rest.start)
    later q (inl other) = inl (λ e. other (e ∙ c.rest_memory))
    later q (inr before) = inr (omega (arith, c.rest_start))

attempt-IsSound :
    (spurious : Bool) (size seen next : ℕ) (b : Bytes) (ps : List Bytes)
    → IsSound (record { buffer = some b; next = next }) ps
    → IsSound
        (record { buffer = some (attempt spurious size seen b).1; next = next })
        (handed (attempt spurious size seen b).0 ps)
unfolding attempt
attempt-IsSound spurious size seen next b ps i = elim (Bool-cases (ltb b.end (seen + size))) [
  | inl long ↦ rw long i
  | inr fits ↦ elim (Bool-cases (not spurious && b.start == seen)) [
    | inr lost ↦ rw (fits, lost) i
    | inl won ↦
        let same : b.start ≡ seen = ground (arith, won) in
        rw (fits, won)
          (cut-IsSound size next b (record { inner = b.inner; start = seen; end = seen + size })
            (record b { start = seen + size }) ps
            (record {
              same_memory = refl;
              from_start = sym same;
              to_end = omega arith;
              rest_memory = refl;
              rest_start = omega arith;
            })
            i)
  ]
]

-- A piece off memory that is new.
fresh-IsSound :
    (size : ℕ) (s : Shared) (p rest : Bytes) (ps : List Bytes)
    → IsCut size (new s.next buffer_size) p rest
    → IsSound s ps
    → IsSound (record { buffer = some rest; next = suc s.next }) (p ∷ ps)
unfolding new
fresh-IsSound size s p rest ps c i =
    cut-IsSound size (suc s.next) (new s.next buffer_size) p rest ps c (record {
      apart = i.apart;
      given = All-map (IsGiven s.next s.buffer) (λ q g. renewed q s.buffer g) ps i.given;
      buffered = omega arith;
    })
  where
    renewed :
        (q : Bytes) (o : Option Bytes)
        → IsGiven s.next o q
        → (q.inner < suc s.next) × ((q.inner ≢ s.next) ⊎ (q.end ≤ 0))
    renewed q none g = (omega arith, inl (λ e. absurd (omega arith)))
    renewed q (some b) (g, h) = (omega arith, inl (λ e. absurd (omega arith)))

ok-ne-err : {A B : Type 0} {a : A} {e : ℕ} → Path (Outcome ℕ A) (err e) (ok a) → B
ok-ne-err {A = A} {B = B} h = absurd (ground arith)

-- The result of `alloc`, where the piece was cut from what is left.
given-IsSound :
    (s s' : Shared) (p piece : Bytes) (ps : List Bytes) (t : Shared)
    → Path (Outcome ℕ (Bytes × Shared)) (ok (piece, t)) (ok (p, s'))
    → IsSound t (piece ∷ ps)
    → IsSound s' (p ∷ ps)
given-IsSound s s' p piece ps t h i =
    subst (λ (r : Bytes × Shared). IsSound r.1 (r.0 ∷ ps)) (ok-inv (piece, t) (piece, t) (p, s') h)
      i

renewed-IsSound :
    (size : ℕ) (s s' : Shared) (p : Bytes) (ps : List Bytes) (r : Outcome ℕ (Bytes × Bytes))
    → split_mut size (new s.next buffer_size) ≡ r
    → install s r ≡ ok (p, s')
    → IsSound s ps
    → IsSound s' (p ∷ ps)
renewed-IsSound size s s' p ps (ok (piece, rest)) c h i =
    given-IsSound s s' p piece ps (record { buffer = some rest; next = suc s.next }) h
      (fresh-IsSound size s piece rest ps
        (split_mut-IsCut size (new s.next buffer_size) piece rest c) i)
renewed-IsSound size s s' p ps (err e) c h i = absurd (ground arith)
renewed-IsSound size s s' p ps panic c h i = absurd (ground arith)

locked-IsSound :
    (size : ℕ) (s s' : Shared) (p : Bytes) (ps : List Bytes) (o : Option Bytes)
    (r : Outcome ℕ (Bytes × Bytes))
    → s.buffer ≡ o
    → cut size o ≡ r
    → fresh size s r ≡ ok (p, s')
    → IsSound s ps
    → IsSound s' (p ∷ ps)
locked-IsSound size s s' p ps none (ok (piece, rest)) e c h i = ok-ne-err c
locked-IsSound size s s' p ps (some b) (ok (piece, rest)) e c h i =
    given-IsSound s s' p piece ps (record s { buffer = some rest }) h
      (cut-IsSound size s.next b piece rest ps (split_mut-IsCut size b piece rest c)
        (subst (λ x. IsSound (record { buffer = x; next = s.next }) ps) e i))
locked-IsSound size s s' p ps o (err x) e c h i =
    renewed-IsSound size s s' p ps (split_mut size (new s.next buffer_size)) refl h i
locked-IsSound size s s' p ps o panic e c h i = absurd (ground arith)

Step-IsSound :
    (s s' : Shared) (ps ps' : List Bytes) → Step s ps s' ps' → IsSound s ps → IsSound s' ps'
unfolding alloc_locked
Step-IsSound s s' ps ps' (passes {b = b} spurious size seen e) i =
    attempt-IsSound spurious size seen s.next b ps
      (subst (λ x. IsSound (record { buffer = x; next = s.next }) ps) e i)
Step-IsSound s s' ps ps' (locks {p = p} size h) i =
    locked-IsSound size s s' p ps s.buffer (cut size s.buffer) refl refl h i

-- What steps lead to from a process that has allocated nothing.
pub data Reached : Shared → List Bytes → Type 0 where
  start : (next : ℕ) → Reached (record { buffer = none; next = next }) []
  stepped : {s s' : Shared} {ps ps' : List Bytes} → Reached s ps → Step s ps s' ps' → Reached s' ps'

Reached-IsSound : (s : Shared) (ps : List Bytes) → Reached s ps → IsSound s ps
Reached-IsSound s ps (start next) = record { apart = tt; given = tt; buffered = tt }
Reached-IsSound s ps (stepped {s = old} {ps = before} r t) =
    Step-IsSound old s before ps t (Reached-IsSound old before r)

-- In every interleaving of threads that allocate, by passes of the loop in `split` with whatever
-- value they saw last and by `alloc` under the lock, no two pieces that were given share a byte.
pub Reached-AreApart : (s : Shared) (ps : List Bytes) → Reached s ps → AreApart ps
Reached-AreApart s ps r = (Reached-IsSound s ps r).apart
