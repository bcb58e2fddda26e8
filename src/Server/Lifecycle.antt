-- ===== src/Server/Lifecycle.antt =====
-- The tunnels of a group (src/server/mod.rs: `Tunnel::init`, `Tunnel::drop`), which run at the same
-- time: each critical section is a step of its own. The flow control's pool is left aside.
use fubuki_test.Base.{
  ℕ, ◌+◌, ◌≤◌, ◌≡◌, refl, sym, ◌∙◌, subst, Bool, true, false, Bool-cases, none, List, [], ◌∷◌, ◌++◌,
  inl, inr, ◌==◌, if◌then◌else◌, arith, ok,
}
use fubuki_test.Ipnet.{IpNet, IsIpNet}
use fubuki_test.Protocol.{Node}
use fubuki_test.Server.{is_some, node_of, GroupHandle, sync, join_mapping, leave_mapping}
use fubuki_test.Server.Pool.{AddressPool, allocate, release, allocate_iff}

-- How far a tunnel is, with the address that it registered. `Tunnel::drop` starts at `allocated`
-- where the task ends before `join`.
pub data Tunnel : Type 0 where
  unregistered closed : Tunnel
  allocated joined left : (virtual_addr : ℕ) → Tunnel

pub record Group (Net : Type 0) : Type 0 where
  pub handle : GroupHandle Net
  pub pool : AddressPool Net

module _ {Net : Type 0} (ip : IpNet Net) where
  -- A critical section of one tunnel.
  pub data Section : Group Net → Tunnel → Group Net → Tunnel → Type 0 where
    allocates :
        {g : Group Net} {pool : AddressPool Net} (a : ℕ)
        → allocate ip a g.pool ≡ ok pool
        → Section g unregistered (record g { pool = pool }) (allocated a)
    joins :
        {g : Group Net} (now : ℕ) (node : Node Net)
        → Section g
            (allocated node.virtual_addr)
            (record g { handle = join_mapping now node g.handle })
            (joined node.virtual_addr)
    leaves :
        {g : Group Net} (a : ℕ)
        → Section g (joined a) (record g { handle = leave_mapping a g.handle }) (left a)
    leaves_early :
        {g : Group Net} (a : ℕ)
        → Section g (allocated a) (record g { handle = leave_mapping a g.handle }) (left a)
    releases :
        {g : Group Net} (a : ℕ) → Section g (left a) (record g { pool = release a g.pool }) closed
    gives_up : {g : Group Net} → Section g unregistered g closed

  -- Any tunnel may go on next, and new ones come.
  pub data Turn : Group Net → List Tunnel → Group Net → List Tunnel → Type 0 where
    goes_on :
        {g g' : Group Net} {t t' : Tunnel} (before after : List Tunnel)
        → Section g t g' t'
        → Turn g (before ++ (t ∷ after)) g' (before ++ (t' ∷ after))
    accepts : {g : Group Net} {ts : List Tunnel} → Turn g ts g (unregistered ∷ ts)

abbrev bit : Bool → ℕ
bit true = 1
bit false = 0

abbrev pub holds : ℕ → Tunnel → Bool
holds a unregistered = false
holds a closed = false
holds a (allocated b) = b == a
holds a (joined b) = b == a
holds a (left b) = b == a

abbrev pub is_mapped : ℕ → Tunnel → Bool
is_mapped a unregistered = false
is_mapped a closed = false
is_mapped a (allocated b) = false
is_mapped a (joined b) = b == a
is_mapped a (left b) = false

abbrev pub count : (Tunnel → Bool) → List Tunnel → ℕ
count p [] = 0
count p (t ∷ ts) = bit (p t) + count p ts

count-append :
    (p : Tunnel → Bool) (ts us : List Tunnel) → count p (ts ++ us) ≡ count p ts + count p us
count-append p [] us = omega arith
count-append p (t ∷ ts) us = omega (arith, count-append p ts us)

mapped-le-holds : (a : ℕ) (ts : List Tunnel) → count (is_mapped a) ts ≤ count (holds a) ts
mapped-le-holds a [] = omega arith
mapped-le-holds a (unregistered ∷ ts) = omega (arith, mapped-le-holds a ts)
mapped-le-holds a (closed ∷ ts) = omega (arith, mapped-le-holds a ts)
mapped-le-holds a (allocated b ∷ ts) = ground (arith, mapped-le-holds a ts)
mapped-le-holds a (joined b ∷ ts) = ground (arith, mapped-le-holds a ts)
mapped-le-holds a (left b ∷ ts) = ground (arith, mapped-le-holds a ts)

-- An address is in use exactly if one tunnel holds it, and no two do; the mapping has it exactly if
-- that tunnel has joined, and the nodes last sent are those of the mapping.
pub record IsConsistent {Net : Type 0} (g : Group Net) (ts : List Tunnel) : Type 0 where
  pub held : (a : ℕ) → count (holds a) ts ≡ bit (g.pool.used a)
  pub mapped : (a : ℕ) → count (is_mapped a) ts ≡ bit (is_some (g.handle.mapping a))
  pub watched : (a : ℕ) → g.handle.watch a ≡ node_of (g.handle.mapping a)

-- The same of one tunnel, where of the others `n a` hold and `m a` have joined with an address `a`.
record Fits {Net : Type 0} (n m : ℕ → ℕ) (g : Group Net) (t : Tunnel) : Type 0 where
  holder : (a : ℕ) → bit (holds a t) + n a ≡ bit (g.pool.used a)
  member : (a : ℕ) → bit (is_mapped a t) + m a ≡ bit (is_some (g.handle.mapping a))
  seen : (a : ℕ) → g.handle.watch a ≡ node_of (g.handle.mapping a)

module _ {Net : Type 0} (gh : GroupHandle Net) where
  leave_mapping-mapping :
      (a x : ℕ)
      → is_some ((leave_mapping a gh).mapping x)
        ≡ (if x == a then false else is_some (gh.mapping x))
  unfolding leave_mapping sync
  leave_mapping-mapping a x = elim (Bool-cases (is_some (gh.mapping a))) [
    | inl here ↦ rw here (ground arith)
    | inr gone ↦ rw gone (ground (arith, gone))
  ]

  leave_mapping-watch :
      (a x : ℕ)
      → gh.watch x ≡ node_of (gh.mapping x)
      → (leave_mapping a gh).watch x ≡ node_of ((leave_mapping a gh).mapping x)
  unfolding leave_mapping sync
  leave_mapping-watch a x h = elim (Bool-cases (is_some (gh.mapping a))) [
    | inl here ↦ rw here refl
    | inr gone ↦ rw gone h
  ]

module _ {Net : Type 0} (ip : IpNet Net) (laws : IsIpNet ip) (n m : ℕ → ℕ)
    (below : (a : ℕ) → m a ≤ n a) where
  Section-Fits :
      (g g' : Group Net) (t t' : Tunnel) → Section ip g t g' t' → Fits n m g t → Fits n m g' t'
  unfolding join_mapping sync release
  Section-Fits g g' t t' (allocates {pool = pool} a h) f =
      let (low, high, idle, same) = (allocate_iff ip laws g.pool pool a).0 h in
      subst (λ p. Fits n m (record g { pool = p }) (allocated a)) same
        (record {
          holder = λ x. ground (arith, f.holder x, idle);
          member = λ x. ground (arith, f.member x);
          seen = f.seen;
        })
  Section-Fits g g' t t' (joins now node) f = record {
    holder = f.holder;
    member = λ x. ground (arith, f.holder x, f.member x, below x);
    seen = λ x. refl;
  }
  Section-Fits g g' t t' (leaves a) f = record {
    holder = f.holder;
    member =
        λ x. ground (arith, f.holder x, f.member x, below x, leave_mapping-mapping g.handle a x);
    seen = λ x. leave_mapping-watch g.handle a x (f.seen x);
  }
  Section-Fits g g' t t' (leaves_early a) f = record {
    holder = f.holder;
    member =
        λ x. ground (arith, f.holder x, f.member x, below x, leave_mapping-mapping g.handle a x);
    seen = λ x. leave_mapping-watch g.handle a x (f.seen x);
  }
  Section-Fits g g' t t' (releases a) f = record {
    holder = λ x. ground (arith, f.holder x);
    member = f.member;
    seen = f.seen;
  }
  Section-Fits g g' t t' gives_up f = record { holder = f.holder; member = f.member; seen = f.seen }

module _ {Net : Type 0} (ip : IpNet Net) (laws : IsIpNet ip) where
  -- How many of the tunnels on both sides of one are counted.
  others : (ℕ → Tunnel → Bool) → (before after : List Tunnel) → ℕ → ℕ
  others p before after a = count (p a) before + count (p a) after

  count-split :
      (p : Tunnel → Bool) (before after : List Tunnel) (t : Tunnel)
      → count p (before ++ (t ∷ after)) ≡ bit (p t) + (count p before + count p after)
  count-split p before after t = omega (arith, count-append p before (t ∷ after))

  apart :
      (g : Group Net) (before after : List Tunnel) (t : Tunnel)
      → IsConsistent g (before ++ (t ∷ after))
      → Fits (others holds before after) (others is_mapped before after) g t
  unfolding others
  apart g before after t c = record {
    holder = λ a. sym (count-split (holds a) before after t) ∙ c.held a;
    member = λ a. sym (count-split (is_mapped a) before after t) ∙ c.mapped a;
    seen = c.watched;
  }

  together :
      (g : Group Net) (before after : List Tunnel) (t : Tunnel)
      → Fits (others holds before after) (others is_mapped before after) g t
      → IsConsistent g (before ++ (t ∷ after))
  unfolding others
  together g before after t f = record {
    held = λ a. count-split (holds a) before after t ∙ f.holder a;
    mapped = λ a. count-split (is_mapped a) before after t ∙ f.member a;
    watched = f.seen;
  }

  others-below :
      (before after : List Tunnel) (a : ℕ)
      → others is_mapped before after a ≤ others holds before after a
  unfolding others
  others-below before after a = omega (arith, mapped-le-holds a before, mapped-le-holds a after)

  Turn-IsConsistent :
      (g g' : Group Net) (ts ts' : List Tunnel)
      → Turn ip g ts g' ts'
      → IsConsistent g ts
      → IsConsistent g' ts'
  Turn-IsConsistent g g' ts ts' (goes_on {t = t} {t' = t'} before after s) c =
      together g' before after t' (
        Section-Fits ip laws (others holds before after) (others is_mapped before after)
          (others-below before after) g g' t t' s (apart g before after t c))
  Turn-IsConsistent g g' ts ts' accepts c = record {
    held = λ a. omega (arith, c.held a);
    mapped = λ a. omega (arith, c.mapped a);
    watched = c.watched;
  }

  -- The states that turns lead to from a group without nodes.
  pub data Reached : Group Net → List Tunnel → Type 0 where
    start :
        {g : Group Net}
        → ((a : ℕ) → g.pool.used a ≡ false)
        → ((a : ℕ) → g.handle.mapping a ≡ none)
        → ((a : ℕ) → g.handle.watch a ≡ none)
        → Reached g []
    turned :
        {g g' : Group Net} {ts ts' : List Tunnel}
        → Reached g ts
        → Turn ip g ts g' ts'
        → Reached g' ts'

  -- In every interleaving of the tunnels' critical sections from a group without nodes: an address
  -- is in use exactly while one tunnel holds it and no two tunnels hold one, the mapping has it
  -- exactly while that tunnel has joined, and what was sent last on the watch channel is the
  -- mapping's nodes.
  pub Reached-IsConsistent : (g : Group Net) (ts : List Tunnel) → Reached g ts → IsConsistent g ts
  Reached-IsConsistent g ts (start used mapping watch) = record {
    held = λ a. rw (used a) refl;
    mapped = λ a. rw (mapping a) refl;
    watched = λ a. rw (watch a, mapping a) refl;
  }
  Reached-IsConsistent g ts (turned {g = old} {ts = before} r t) =
      Turn-IsConsistent old g before ts t (Reached-IsConsistent old before r)
