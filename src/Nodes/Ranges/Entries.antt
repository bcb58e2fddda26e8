-- ===== src/Nodes/Ranges/Entries.antt =====
-- The entries that `update_tun_addr` (src/node/mod.rs) leaves in the table of src/routing_table/array.rs.
use mathlib.Core.List.{Memᴰ}
use mathlib.Core.List.Memᴰ
use fubuki_test.Base.{
  ℕ, zero, suc, Bool, ◌≡◌, refl, sym, ◌∙◌, subst, true, false, Bool-cases, ◌||◌, not, ◌⊎◌, inl, inr,
  Option, none, some, List, [], ◌∷◌, insert_at, remove_at, get_elem?, none-absurd, unsome, ◌==◌,
  if◌then◌else◌, arith,
}
use fubuki_test.Ipnet.{IpNet, IsIpNet}
use fubuki_test.Routing.{Item, ItemKind, virtual_range, allowed_ips_route, is_kind}
use fubuki_test.Routing.Array.{ArrayRoutingTable, array_table, add, remove, remove_index, position}
use fubuki_test.Nodes.{Interface}
use fubuki_test.Nodes.Ranges.{
  put_back, update_allowed, virtual_item, allowed_items, update_range, update_route,
  update_tun_addr, TunCall, delete_addr, add_addr, move_tun,
}

module _ {A : Type 0} where
  Mem-inserted : (i : ℕ) (x : A) (xs : List A) → Memᴰ x (insert_at i x xs)
  Mem-inserted zero x xs = Memᴰ.head refl
  Mem-inserted (suc i) x [] = Memᴰ.head refl
  Mem-inserted (suc i) x (y ∷ ys) = Memᴰ.tail (Mem-inserted i x ys)

  Mem-insert_at : (i : ℕ) (x a : A) (xs : List A) → Memᴰ a xs → Memᴰ a (insert_at i x xs)
  Mem-insert_at zero x a xs m = Memᴰ.tail m
  Mem-insert_at (suc i) x a [] m = absurd (Memᴰ.not-nil m)
  Mem-insert_at (suc i) x a (y ∷ ys) m = elim (Memᴰ.cases_cons m) [
    | inl e ↦ Memᴰ.head e
    | inr n ↦ Memᴰ.tail (Mem-insert_at i x a ys n)
  ]

  Mem-remove_at :
      (i : ℕ) (a : A) (xs : List A)
      → Memᴰ a xs
      → Memᴰ a (remove_at i xs) ⊎ (get_elem? xs i ≡ some a)
  Mem-remove_at i a [] m = absurd (Memᴰ.not-nil m)
  Mem-remove_at zero a (y ∷ ys) m = elim (Memᴰ.cases_cons m) [
    | inl e ↦ inr (rw e refl)
    | inr n ↦ inl n
  ]
  Mem-remove_at (suc i) a (y ∷ ys) m = elim (Memᴰ.cases_cons m) [
    | inl e ↦ inl (Memᴰ.head e)
    | inr n ↦ elim (Mem-remove_at i a ys n) [ inl k ↦ inl (Memᴰ.tail k) | inr e ↦ inr e ]
  ]

module _ {Net : Type 0} (ip : IpNet Net) where
  added : (item : Item Net) (t : ArrayRoutingTable Net) → Memᴰ item (add ip item t)
  unfolding add
  added item t = Mem-inserted _ item t

  still_there : (item i : Item Net) (t : ArrayRoutingTable Net) → Memᴰ i t → Memᴰ i (add ip item t)
  unfolding add
  still_there item i t m = Mem-insert_at _ item i t m

  taken_back :
      (kind : ItemKind) (i : Item Net) (t : ArrayRoutingTable Net) (o : Option (Item Net))
      → is_kind i.extend.item_kind kind ≡ false
      → Memᴰ i t ⊎ (o ≡ some i)
      → Memᴰ i (put_back ip (array_table ip) kind (o, t))
  unfolding put_back
  taken_back kind i t none other (inl m) = m
  taken_back kind i t none other (inr e) = none-absurd e
  taken_back kind i t (some j) other (inl m) = elim (Bool-cases (is_kind j.extend.item_kind kind)) [
    | inl same ↦ rw same m
    | inr differs ↦ rw differs (still_there j i t m)
  ]
  taken_back kind i t (some j) other (inr e) =
      subst (λ k. Memᴰ i (put_back ip (array_table ip) kind (some k, t))) (sym (unsome e))
        (rw other (added i t))

  put_back-keeps :
      (kind : ItemKind) (i : Item Net) (cidr : Net) (t : ArrayRoutingTable Net)
      → is_kind i.extend.item_kind kind ≡ false
      → Memᴰ i t
      → Memᴰ i (put_back ip (array_table ip) kind (remove ip cidr t))
  unfolding remove
  put_back-keeps kind i cidr t other m = at (position (λ v. ip.same v.cidr cidr) t)
    where
      at : (o : Option ℕ) → Memᴰ i (put_back ip (array_table ip) kind (remove_index ip t o))
      at none = taken_back kind i t none other (inl m)
      at (some k) = taken_back kind i (remove_at k t) (get_elem? t k) other (Mem-remove_at k i t m)

  update_allowed-keeps :
      (i : Item Net) (items : List (Item Net)) (t : ArrayRoutingTable Net)
      → is_kind i.extend.item_kind allowed_ips_route ≡ false
      → Memᴰ i t
      → Memᴰ i (update_allowed ip (array_table ip) items t)
  unfolding update_allowed
  update_allowed-keeps i [] t other m = m
  update_allowed-keeps i (item ∷ items) t other m =
      update_allowed-keeps i items _ other
        (still_there item i _ (put_back-keeps allowed_ips_route i item.cidr t other m))

  module _ (accepts : TunCall Net → Bool) (allowed_ips : List Net) (old_addr addr : ℕ)
      (old_cidr cidr : Net) (interface : Interface Net) (t : ArrayRoutingTable Net) where
    abbrev pub updated : Bool × ArrayRoutingTable Net × Interface Net × List (TunCall Net)
    updated =
        update_tun_addr ip (array_table ip) accepts allowed_ips old_addr addr old_cidr cidr
          interface t

    abbrev pub is_new : Bool
    is_new = not (addr == old_addr) || not (ip.same cidr old_cidr)

    -- Whether no call failed, the interface and the calls: it has the new address, unless it had it
    -- already or the device refuses to lose the old one or to get the new one.
    pub data IsMoved : Bool × Interface Net × List (TunCall Net) → Type 0 where
      moves :
          is_new ≡ true
          → accepts (delete_addr old_addr old_cidr) ≡ true
          → accepts (add_addr addr cidr) ≡ true
          → IsMoved (
            true,
            record interface { addr = addr; cidr = cidr },
            delete_addr old_addr old_cidr ∷ add_addr addr cidr ∷ [],
          )
      had_it : interface.addr ≡ addr → interface.cidr ≡ cidr → IsMoved (true, interface, [])
      keeps_old :
          is_new ≡ true
          → accepts (delete_addr old_addr old_cidr) ≡ false
          → IsMoved (false, interface, [])
      has_none :
          is_new ≡ true
          → accepts (delete_addr old_addr old_cidr) ≡ true
          → accepts (add_addr addr cidr) ≡ false
          → IsMoved (false, interface, delete_addr old_addr old_cidr ∷ [])

    -- The interface has moved or not, the table has the entry of the range, and an entry of another
    -- kind that it had.
    pub record IsUpdated (i : Item Net) : Type 0 where
      pub moved : IsMoved (updated.0, updated.2, updated.3)
      pub has_range : Memᴰ (virtual_item ip (array_table ip) interface.index cidr) updated.1
      pub keeps : Memᴰ i updated.1

    module _ (i : Item Net) (other : is_kind i.extend.item_kind virtual_range ≡ false)
        (other' : is_kind i.extend.item_kind allowed_ips_route ≡ false) where
      range-keeps :
          Memᴰ i t → Memᴰ i (update_range ip (array_table ip) interface.index old_cidr cidr t)
      unfolding update_range
      range-keeps m = elim (Bool-cases (ip.same cidr old_cidr)) [
        | inl same ↦ rw same m
        | inr differs ↦
            rw differs (still_there _ i _ (put_back-keeps virtual_range i old_cidr t other m))
      ]

    range_added :
        (ip.same cidr old_cidr ≡ false)
          ⊎ Memᴰ (virtual_item ip (array_table ip) interface.index cidr) t
        → Memᴰ
            (virtual_item ip (array_table ip) interface.index cidr)
            (update_range ip (array_table ip) interface.index old_cidr cidr t)
    unfolding update_range
    range_added h = elim (Bool-cases (ip.same cidr old_cidr)) [
      | inl same ↦
          rw same (elim h [ inl differs ↦ absurd (ground (arith, same, differs)) | inr m ↦ m ])
      | inr differs ↦ rw differs (added (virtual_item ip (array_table ip) interface.index cidr) _)
    ]

    route-keeps :
        (i : Item Net) (t' : ArrayRoutingTable Net)
        → is_kind i.extend.item_kind allowed_ips_route ≡ false
        → Memᴰ i t'
        → Memᴰ i (
            if addr == old_addr
            then t'
            else update_allowed ip
                (array_table ip)
                (allowed_items ip (array_table ip) interface.index addr allowed_ips)
                t')
    route-keeps i t' other m = elim (Bool-cases (addr == old_addr)) [
      | inl same ↦ rw same m
      | inr differs ↦ rw differs (update_allowed-keeps i _ t' other m)
    ]

    move_tun-IsMoved :
        IsIpNet ip
        → interface.addr ≡ old_addr
        → interface.cidr ≡ old_cidr
        → IsMoved (move_tun ip accepts old_addr addr old_cidr cidr interface)
    unfolding move_tun
    move_tun-IsMoved laws ha hc = elim (Bool-cases is_new) [
      | inl changed ↦ elim (Bool-cases (accepts (delete_addr old_addr old_cidr))) [
        | inr refused ↦ rw (changed, refused) (keeps_old changed refused)
        | inl removed ↦ elim (Bool-cases (accepts (add_addr addr cidr))) [
          | inr refused ↦ rw (changed, removed, refused) (has_none changed removed refused)
          | inl taken ↦ rw (changed, removed, taken) (moves changed removed taken)
        ]
      ]
      | inr same ↦
          let one : addr ≡ old_addr = ground (arith, same) in
          let equal : ip.same cidr old_cidr ≡ true = ground (arith, same) in
          rw same (had_it (ha ∙ sym one) (hc ∙ sym ((laws.same_iff cidr old_cidr).0 equal)))
    ]

    -- For an interface with the old address and range, update_tun_addr returns Ok exactly if the
    -- device accepts the calls for a change, if there is one, and the interface then has the new
    -- address and range; otherwise the interface stays, and the device has lost the old address if
    -- it refused only the new one. In all these cases the table has the entry of the new range, if
    -- the range is new or the table had it, and every entry that it had and that is neither of a
    -- range nor of a network behind a node.
    pub update_tun_addr-IsUpdated :
        (i : Item Net)
        → IsIpNet ip
        → interface.addr ≡ old_addr
        → interface.cidr ≡ old_cidr
        → (ip.same cidr old_cidr ≡ false)
          ⊎ Memᴰ (virtual_item ip (array_table ip) interface.index cidr) t
        → is_kind i.extend.item_kind virtual_range ≡ false
        → is_kind i.extend.item_kind allowed_ips_route ≡ false
        → Memᴰ i t
        → IsUpdated i
    unfolding update_tun_addr update_route
    update_tun_addr-IsUpdated i laws ha hc h other other' m = record {
      moved = move_tun-IsMoved laws ha hc;
      has_range =
          route-keeps (virtual_item ip (array_table ip) interface.index cidr) _ refl
            (range_added h);
      keeps = route-keeps i _ other' (range-keeps i other other' m);
    }
