-- ===== src/Nodes/Tests/Routes.antt =====
-- A run of the system's routes, with a system that knows two.
use fubuki_test.Base.{
  ◌+◌, ◌≤◌, ◌≡◌, refl, sym, subst, Bool, true, false, Option, none, some, unsome, none-absurd, List,
  [], ◌∷◌, ◌++◌, if◌then◌else◌, arith,
}
use fubuki_test.Nodes.SysRoute.{Handle, one, count, IsTable, SystemRouteHandle, add, clear}
use fubuki_test.Nodes.SysRoute.Cleared.{Added, IsCleared, made, called, clear-restores}

abbrev same : Bool → Bool → Bool
same false false = true
same true true = true
same false true = false
same true false = false

-- The first flag is for the route `false`, the second for `true`.
abbrev listed : Bool × Bool → List Bool
listed (a, b) = (if a then false ∷ [] else []) ++ (if b then true ∷ [] else [])

abbrev added : Bool → Bool × Bool → Option (Bool × Bool)
added false (a, b) = if a then none else some (true, b)
added true (a, b) = if b then none else some (a, true)

abbrev deleted : Bool → Bool × Bool → Option (Bool × Bool)
deleted false (a, b) = if a then some (false, b) else none
deleted true (a, b) = if b then some (a, false) else none

abbrev two_routes : Handle Bool (Bool × Bool)
two_routes = record { same = same; list = listed; lists = λ t. true; add = added; delete = deleted }

at_most_once : (t : Bool × Bool) (q : Bool) → count two_routes q (listed t) ≤ 1
at_most_once (false, false) q = omega arith
at_most_once (true, false) false = omega arith
at_most_once (true, false) true = omega arith
at_most_once (false, true) false = omega arith
at_most_once (false, true) true = omega arith
at_most_once (true, true) false = omega arith
at_most_once (true, true) true = omega arith

with_first :
    (b q : Bool)
    → count two_routes q (listed (true, b))
      ≡ one two_routes q false + count two_routes q (listed (false, b))
with_first false false = omega arith
with_first false true = omega arith
with_first true false = omega arith
with_first true true = omega arith

with_second :
    (a q : Bool)
    → count two_routes q (listed (a, true))
      ≡ one two_routes q true + count two_routes q (listed (a, false))
with_second false false = omega arith
with_second false true = omega arith
with_second true false = omega arith
with_second true true = omega arith

add_counts :
    (r a b : Bool) (t' : Bool × Bool)
    → added r (a, b) ≡ some t'
    → (q : Bool)
    → count two_routes q (listed t') ≡ one two_routes q r + count two_routes q (listed (a, b))
add_counts false true b t' e q = none-absurd e
add_counts false false b t' e q =
    subst
      (λ x.
        count two_routes q (listed x)
        ≡ one two_routes q false + count two_routes q (listed (false, b)))
      (unsome e) (with_first b q)
add_counts true a true t' e q = none-absurd e
add_counts true a false t' e q =
    subst
      (λ x.
        count two_routes q (listed x)
        ≡ one two_routes q true + count two_routes q (listed (a, false)))
      (unsome e) (with_second a q)

delete_counts :
    (r a b : Bool) (t' : Bool × Bool)
    → deleted r (a, b) ≡ some t'
    → (q : Bool)
    → one two_routes q r + count two_routes q (listed t') ≡ count two_routes q (listed (a, b))
delete_counts false false b t' e q = none-absurd e
delete_counts false true b t' e q =
    subst
      (λ x.
        one two_routes q false + count two_routes q (listed x)
        ≡ count two_routes q (listed (true, b)))
      (unsome e) (sym (with_first b q))
delete_counts true a false t' e q = none-absurd e
delete_counts true a true t' e q =
    subst
      (λ x.
        one two_routes q true + count two_routes q (listed x)
        ≡ count two_routes q (listed (a, true)))
      (unsome e) (sym (with_second a q))

same_self : (a : Bool) → same a a ≡ true
same_self false = refl
same_self true = refl

two_routes-IsTable : IsTable two_routes
two_routes-IsTable = record {
  same_refl = same_self;
  adds = λ r t t' e q. add_counts r t.0 t.1 t' e q;
  deletes = λ r t t' k e q. delete_counts r t.0 t.1 t' e q;
}

-- The system has the second route, so that adding both fails after the first.
abbrev stopped : SystemRouteHandle two_routes
stopped = record { routes = false ∷ []; table = (true, true) }

both_called : Added two_routes (false, true) stopped
unfolding add
both_called = called {s = record { routes = []; table = (false, true) }} (false ∷ true ∷ []) made

restored_example : IsCleared two_routes (false, true) stopped (clear two_routes stopped)
restored_example =
    clear-restores two_routes-IsTable (false, true) stopped both_called (at_most_once (true, true))
