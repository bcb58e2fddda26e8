-- ===== src/Nodes/SysRoute/Cleared.antt =====
-- What `SystemRouteHandle` (src/node/sys_route.rs) leaves in the system's table.
use fubuki_test.Base.{
  ◌+◌, ◌≤◌, ◌≡◌, refl, sym, ap, ◌∙◌, subst, ◌⊎◌, inl, inr, Bool, true, false, Bool-cases, Option,
  none, some, Option-cases, List, [], ◌∷◌, ◌++◌, arith,
}
use fubuki_test.Nodes.SysRoute.{
  Handle, one, count, IsTable, SystemRouteHandle, add, delete_from, delete_all, clear,
}

module _ {Route T : Type 0} (handle : Handle Route T) where
  count-append :
      (q : Route) (a b : List Route) → count handle q (a ++ b) ≡ count handle q a + count handle q b
  count-append q [] b = omega arith
  count-append q (r ∷ a) b = omega (arith, count-append q a b)

  -- The states from empty `routes` on, after calls of `add` that succeeded or failed.
  pub data Added (before : T) : SystemRouteHandle handle → Type 0 where
    made : Added before (record { routes = []; table = before })
    called :
        {s : SystemRouteHandle handle} (routes : List Route)
        → Added before s
        → Added before (add handle routes s).1

  abbrev Owns : T → SystemRouteHandle handle → Type 0
  Owns before s =
      (q : Route)
      → count handle q (handle.list s.table)
        ≡ count handle q s.routes + count handle q (handle.list before)

  add_step :
      (x : Route) (xs : List Route) (s : SystemRouteHandle handle) (o : Option T)
      → handle.add x s.table ≡ o
      → add handle (x ∷ xs) s ≡ elim o [
        | none ↦ (false, s)
        | some table ↦ add handle xs (record { routes = s.routes ++ (x ∷ []); table = table })
      ]
  unfolding add
  add_step x xs s o e = ap next e
    where
      next : Option T → Bool × SystemRouteHandle handle
      next none = (false, s)
      next (some table) = add handle xs (record { routes = s.routes ++ (x ∷ []); table = table })

  -- What `clear` returns: no routes and the table with each route as often as before, or an error
  -- if the listing fails or the deletion of a route that the table has.
  pub data IsCleared (before : T) (s : SystemRouteHandle handle)
      : Option (SystemRouteHandle handle) → Type 0 where
    restored :
        {t : T}
        → ((q : Route) → count handle q (handle.list t) ≡ count handle q (handle.list before))
        → IsCleared before s (some (record { routes = []; table = t }))
    not_listed : handle.lists s.table ≡ false → IsCleared before s none
    not_deleted :
        {a : Route} {t : T}
        → count handle a (handle.list t) ≡ 1
        → handle.delete a t ≡ none
        → IsCleared before s none

  -- A deletion of a route that the table has fails.
  record IsStuck : Type 0 where
    route : Route
    table : T
    there : count handle route (handle.list table) ≡ 1
    fails : handle.delete route table ≡ none

module _ {Route T : Type 0} {handle : Handle Route T} (laws : IsTable handle) where
  add-Owns :
      (before : T) (xs : List Route) (s : SystemRouteHandle handle)
      → Owns handle before s
      → Owns handle before (add handle xs s).1
  unfolding add
  add-Owns before [] s h = h
  add-Owns before (x ∷ xs) s h = elim (Option-cases (handle.add x s.table)) [
    | inl fails ↦ subst (λ r. Owns handle before r.1) (sym (add_step handle x xs s none fails)) h
    | inr (table, works) ↦
        subst (λ r. Owns handle before r.1) (sym (add_step handle x xs s (some table) works))
          (add-Owns before xs (record { routes = s.routes ++ (x ∷ []); table = table })
            (λ q. omega (
              arith,
              h q,
              laws.adds x s.table table works q,
              count-append handle q s.routes (x ∷ []),
            )))
  ]

  Added-Owns :
      (before : T) {s : SystemRouteHandle handle} → Added handle before s → Owns handle before s
  Added-Owns before made = λ q. omega arith
  Added-Owns before (called {s = s} routes a) = add-Owns before routes s (Added-Owns before a)

  delete_none :
      (a : Route) (bs : List Route) (t : T)
      → count handle a bs ≡ 0
      → delete_from handle a bs t ≡ some t
  unfolding delete_from
  delete_none a [] t h = refl
  delete_none a (b ∷ bs) t h =
      let other : handle.same a b ≡ false = ground (arith, h) in
      rw other (delete_none a bs t (ground (arith, h)))

  -- A route that the list has once is deleted once, or its deletion fails.
  delete_once :
      (a : Route) (bs : List Route) (t : T)
      → count handle a bs ≡ 1
      → count handle a (handle.list t) ≡ 1
      → ((t' : T) × (delete_from handle a bs t ≡ some t')
          × ((q : Route)
              → one handle q a + count handle q (handle.list t') ≡ count handle q (handle.list t)))
        ⊎ ((handle.delete a t ≡ none) × (delete_from handle a bs t ≡ none))
  unfolding delete_from
  delete_once a [] t h k = absurd (ground (arith, h))
  delete_once a (b ∷ bs) t h k = elim (Bool-cases (handle.same a b)) [
    | inl this ↦ elim (Option-cases (handle.delete a t)) [
      | inl fails ↦ inr (fails, rw this (rw fails refl))
      | inr (t', e) ↦ inl (
        t',
        rw this (rw e (delete_none a bs t' (ground (arith, h, this)))),
        laws.deletes a t t' k e,
      )
    ]
    | inr other ↦ elim (delete_once a bs t (ground (arith, h, other)) k) [
      | inl (t', e, c) ↦ inl (t', rw other e, c)
      | inr (fails, e) ↦ inr (fails, rw other e)
    ]
  ]

  delete_all_step :
      (a : Route) (rs bs : List Route) (t : T) (o : Option T)
      → delete_from handle a bs t ≡ o
      → delete_all handle (a ∷ rs) bs t
        ≡ elim o [ none ↦ none | some x ↦ delete_all handle rs bs x ]
  unfolding delete_all
  delete_all_step a rs bs t o e = ap next e
    where
      next : Option T → Option T
      next none = none
      next (some x) = delete_all handle rs bs x

  -- Of a table that has each route once at most, all routes of a list that it has are deleted, or a
  -- deletion fails.
  delete_all-count :
      (before start : T) (rs : List Route) (t : T)
      → ((q : Route) → count handle q (handle.list start) ≤ 1)
      → ((q : Route) → count handle q (handle.list t) ≤ count handle q (handle.list start))
      → ((q : Route)
          → count handle q (handle.list t)
            ≡ count handle q rs + count handle q (handle.list before))
      → ((t' : T) × (delete_all handle rs (handle.list start) t ≡ some t')
          × ((q : Route) → count handle q (handle.list t') ≡ count handle q (handle.list before)))
        ⊎ (IsStuck handle × (delete_all handle rs (handle.list start) t ≡ none))
  unfolding delete_all
  delete_all-count before start [] t once le h = inl (t, refl, λ q. omega (arith, h q))
  delete_all-count before start (a ∷ rs) t once le h =
      let own : one handle a a ≡ 1 = rw (laws.same_refl a) refl in
      let there : count handle a (handle.list start) ≡ 1 = omega (arith, le a, h a, own, once a) in
      let now : count handle a (handle.list t) ≡ 1 = omega (arith, le a, h a, own, once a) in
      elim (delete_once a (handle.list start) t there now) [
        | inr (fails, e) ↦ inr (
          record { route = a; table = t; there = now; fails = fails },
          delete_all_step a rs (handle.list start) t none e,
        )
        | inl (t', e, c) ↦
            let step = delete_all_step a rs (handle.list start) t (some t') e in
            elim (delete_all-count before start rs t' once (λ q. omega (arith, le q, c q))
              (λ q. omega (arith, h q, c q))) [
                | inl (last, f, d) ↦ inl (last, step ∙ f, d)
                | inr (stuck, f) ↦ inr (stuck, step ∙ f)
              ]
      ]

  clear_step :
      (s : SystemRouteHandle handle) (o : Option T)
      → handle.lists s.table ≡ true
      → delete_all handle s.routes (handle.list s.table) s.table ≡ o
      → elim o [ none ↦ none | some t ↦ some (record { routes = []; table = t }) ] ≡ clear handle s
  unfolding clear
  clear_step s o lists e = rw lists (sym (ap next e))
    where
      next : Option T → Option (SystemRouteHandle handle)
      next none = none
      next (some x) = some (record { routes = []; table = x })

  -- After any calls of add from empty routes on, whether they succeeded or failed in the middle, if
  -- the system's table then has no two routes of the same destination, prefix, gateway and
  -- interface: clear keeps no routes and leaves the table with each route as often as before, or it
  -- returns the error of the listing or of a deletion of a route that the table has. add is taken
  -- to add a route and delete to take out one that is there, where they succeed.
  pub clear-restores :
      (before : T) (s : SystemRouteHandle handle)
      → Added handle before s
      → ((q : Route) → count handle q (handle.list s.table) ≤ 1)
      → IsCleared handle before s (clear handle s)
  unfolding clear
  clear-restores before s a once = elim (Bool-cases (handle.lists s.table)) [
    | inr fails ↦ rw fails (not_listed fails)
    | inl lists ↦
        elim (delete_all-count before s.table s.routes s.table once (λ q. omega arith)
          (Added-Owns before a)) [
            | inl (t, e, c) ↦
                subst (IsCleared handle before s) (clear_step s (some t) lists e) (restored c)
            | inr (stuck, e) ↦
                subst (IsCleared handle before s) (clear_step s none lists e)
                  (not_deleted stuck.there stuck.fails)
          ]
  ]
