-- ===== src/Nodes/SysRoute.antt =====
-- `SystemRouteHandle` (src/node/sys_route.rs), on systems other than macOS: the routes that the node
-- adds to the system's table, and their removal at the end. `net_route::Handle` and its routes are a
-- parameter, whose table is a state.
pub mod Cleared
use fubuki_test.Base.{
  ℕ, ◌+◌, ◌≤◌, ◌≡◌, ◌↔◌, Bool, true, false, Option, none, some, List, [], ◌∷◌, ◌++◌, if◌then◌else◌,
}

pub record Handle (Route T : Type 0) : Type 0 where
  -- Whether `destination`, `prefix`, `gateway` and `ifindex` are equal.
  pub same : Route → Route → Bool
  pub list : T → List Route
  -- Whether `list` succeeds.
  pub lists : T → Bool
  -- The table after the call, or none where it fails.
  pub add : Route → T → Option T
  pub delete : Route → T → Option T

module _ {Route T : Type 0} (handle : Handle Route T) where
  -- How often a list has a route.
  abbrev pub one : Route → Route → ℕ
  one q r = if handle.same q r then 1 else 0

  abbrev pub count : Route → List Route → ℕ
  count q [] = 0
  count q (r ∷ rs) = one q r + count q rs

  -- `add`, where it succeeds, adds the route; `delete`, where it succeeds for a route that is there
  -- once, takes it out. Routes that differ in something else count as one here.
  pub record IsTable : Type 0 where
    pub same_refl : (a : Route) → handle.same a a ≡ true
    pub adds :
        (r : Route) (t t' : T)
        → handle.add r t ≡ some t'
        → (q : Route) → count q (handle.list t') ≡ one q r + count q (handle.list t)
    pub deletes :
        (r : Route) (t t' : T)
        → count r (handle.list t) ≡ 1
        → handle.delete r t ≡ some t'
        → (q : Route) → one q r + count q (handle.list t') ≡ count q (handle.list t)

  -- `self.routes` and the system's table.
  pub record SystemRouteHandle : Type 0 where
    pub routes : List Route
    pub table : T

  -- Whether all were added, and the state.
  unfoldable pub add : List Route → SystemRouteHandle → Bool × SystemRouteHandle
  add [] self = (true, self)
  add (x ∷ xs) self = elim (handle.add x self.table) [
    | none ↦ (false, self)
    | some table ↦ add xs (record { routes = self.routes ++ (x ∷ []); table = table })
  ]

  -- The inner loop of `clear`, over the routes that the system had.
  unfoldable pub delete_from : (a : Route) → List Route → T → Option T
  delete_from a [] table = some table
  delete_from a (b ∷ bs) table =
      let rest = delete_from a bs table in
      let deleted : Option T = elim (handle.delete a table) [
        | none ↦ none
        | some table' ↦ delete_from a bs table'
      ] in
      if handle.same a b then deleted else rest

  -- The outer loop.
  unfoldable pub delete_all : List Route → (list : List Route) → T → Option T
  delete_all [] list table = some table
  delete_all (a ∷ rs) list table = elim (delete_from a list table) [
    | none ↦ none
    | some table' ↦ delete_all rs list table'
  ]

  -- The state after `clear`, or none where the listing or a deletion fails.
  unfoldable pub clear : SystemRouteHandle → Option SystemRouteHandle
  clear self =
      let deleted : Option SystemRouteHandle =
        elim (delete_all self.routes (handle.list self.table) self.table) [
          | none ↦ none
          | some table ↦ some (record { routes = []; table = table })
        ] in
      if handle.lists self.table then deleted else none
