-- ===== src/Nodes/CrossNat.antt =====
-- `udp_inbound_handler` (src/node/cross_nat.rs): the UDP sockets that stand for the senders behind
-- the cross NAT. The handler, and the child that it spawns for every sender, are taken from one await
-- to the next, in any interleaving. A socket address is a number, so that its order is theirs; times
-- are in seconds. Sockets answer as the events say.
pub mod Sessions
pub mod Children
pub mod Served
use fubuki_test.Base.{
  ℕ, suc, ◌+◌, ◌-◌, Bool, true, false, ◌&&◌, not, Option, none, some, List, [], ◌∷◌, ltb, ◌==◌, ◌⊎◌,
  inl, inr, insert_at, remove_at, get_elem?, if◌then◌else◌, Outcome, ok, panic, ◌>>=◌,
}

-- `(SocketAddr, UdpSocket, AtomicI64)`
pub record Session : Type 0 where
  pub from : ℕ
  pub update_time : ℕ

abbrev pub Mapping : Type 0
Mapping = List Session

pub record Child : Type 0 where
  pub from : ℕ
  -- Its `select!` is over, and the entry not removed yet.
  pub is_done : Bool

pub data Phase : Type 0 where
  waiting : Phase
  binding : (from : ℕ) → Phase
  sending : (from : ℕ) → Phase
  stopped : Phase

-- `now` is what `Utc::now().timestamp()` gives.
pub record SNat : Type 0 where
  pub mapping : Mapping
  pub children : List Child
  pub phase : Phase
  pub now : ℕ

pub data Event : Type 0 where
  -- What the handler awaits: a packet, `bind`, `send_to`, and an error of one of these.
  received : (from : ℕ) → Event
  bound sent failed : Event
  -- What a child awaits: an answer that was passed on, its 5 seconds, an error; then it ends.
  replied slept child_failed ended : (from : ℕ) → Event
  passed : (seconds : ℕ) → Event

abbrev pub initial : (now : ℕ) → SNat
initial now = record { mapping = []; children = []; phase = waiting; now = now }

abbrev pub further : ℕ ⊎ ℕ → ℕ ⊎ ℕ
further (inl i) = inl (suc i)
further (inr i) = inr (suc i)

-- `binary_search_by_key` in a sorted vector: the index of the key, or where it belongs.
unfoldable pub binary_search : (from : ℕ) → Mapping → ℕ ⊎ ℕ
binary_search from [] = inr 0
binary_search from (s ∷ ss) =
    let rest = binary_search from ss in
    if ltb s.from from then further rest else (if s.from == from then inl 0 else inr 0)

unfoldable pub insert_session : Session → Mapping → Outcome (Unit {0}) Mapping
insert_session item tmp = elim (binary_search item.from tmp) [
  | inl i ↦ panic
  | inr i ↦ ok (insert_at i item tmp)
]

unfoldable pub remove_session : (from : ℕ) → Mapping → Outcome (Unit {0}) Mapping
remove_session from tmp = elim (binary_search from tmp) [
  | inl i ↦ ok (remove_at i tmp)
  | inr i ↦ panic
]

unfoldable pub find_session : (from : ℕ) → Mapping → Option Session
find_session from snap = elim (binary_search from snap) [ inl i ↦ get_elem? snap i | inr i ↦ none ]

-- `update_time.store(now)`, in an entry that stays in place.
unfoldable pub touch : (from now : ℕ) → Mapping → Mapping
touch from now [] = []
touch from now (s ∷ ss) =
    (if s.from == from then record s { update_time = now } else s) ∷ touch from now ss

-- Whether a child of a sender is at work, or is over.
unfoldable pub has_child : (from : ℕ) (is_done : Bool) → List Child → Bool
has_child from true [] = false
has_child from false [] = false
has_child from true (c ∷ cs) =
    let rest = has_child from true cs in if c.from == from && c.is_done then true else rest
has_child from false (c ∷ cs) =
    let rest = has_child from false cs in if c.from == from && not c.is_done then true else rest

-- The first child of a sender that is at work is over.
unfoldable pub finish : (from : ℕ) → List Child → List Child
finish from [] = []
finish from (c ∷ cs) =
    let rest = finish from cs in
    if c.from == from && not c.is_done then record c { is_done = true } ∷ cs else c ∷ rest

-- The first child of a sender that is over is gone.
unfoldable pub drop_child : (from : ℕ) → List Child → List Child
drop_child from [] = []
drop_child from (c ∷ cs) =
    let rest = drop_child from cs in if c.from == from && c.is_done then cs else c ∷ rest

-- Whether a sender was silent for more than 300 seconds.
abbrev pub is_idle : (now : ℕ) → Option Session → Bool
is_idle now none = false
is_idle now (some s) = ltb 300 (now - s.update_time)

abbrev pub looked_up : (from : ℕ) → Option Session → Phase
looked_up from none = binding from
looked_up from (some s) = sending from

-- The handler's turn after what it awaited; in another phase it does not await this.
unfoldable pub handle : Event → Phase → SNat → Outcome (Unit {0}) SNat
handle (received from) waiting s =
    ok (record s { phase = looked_up from (find_session from s.mapping) })
handle bound (binding from) s =
    insert_session (record { from = from; update_time = s.now }) s.mapping >>= λ mapping.
    ok (record s {
      mapping = mapping;
      children = record { from = from; is_done = false } ∷ s.children;
      phase = sending from;
    })
handle sent (sending from) s =
    ok (record s { mapping = touch from s.now s.mapping; phase = waiting })
handle failed (binding from) s = ok (record s { phase = stopped })
handle failed (sending from) s = ok (record s { phase = stopped })
handle _ _ s = ok s

-- One event.
unfoldable pub step : Event → SNat → Outcome (Unit {0}) SNat
step (passed seconds) s = ok (record s { now = s.now + seconds })
step (replied from) s =
    if has_child from false s.children
    then ok (record s { mapping = touch from s.now s.mapping })
    else ok s
step (slept from) s =
    if has_child from false s.children && is_idle s.now (find_session from s.mapping)
    then ok (record s { children = finish from s.children })
    else ok s
step (child_failed from) s =
    if has_child from false s.children
    then ok (record s { children = finish from s.children })
    else ok s
step (ended from) s =
    let removal = remove_session from s.mapping >>= λ mapping.
    ok (record s { mapping = mapping; children = drop_child from s.children }) in
    if has_child from true s.children then removal else ok s
step (received from) s = handle (received from) s.phase s
step bound s = handle bound s.phase s
step sent s = handle sent s.phase s
step failed s = handle failed s.phase s

unfoldable pub run : List Event → SNat → Outcome (Unit {0}) SNat
run [] s = ok s
run (e ∷ es) s = step e s >>= λ s'. run es s'
