-- ===== src/Routing/External.antt =====
-- Tables that an external library implements (src/routing_table/external.rs): the C layout of the
-- entries, and a table behind the library's functions. `MaybeUninit` is an option, and reading
-- what is not initialised is a panic of the model.
use mathlib.Core.Option as Options
use fubuki_test.Base.{
  ℕ, ◌≡◌, refl, Bool, true, false, Option, none, some, if◌then◌else◌, Outcome, ok, ◌>>=◌, unwrap,
}
use fubuki_test.Routing.{ItemKind, Extend, Item}

-- `Ipv4Net::new`, `addr` and `prefix_len`.
pub record NetParts (Net : Type 0) : Type 0 where
  pub new : (addr prefix_len : ℕ) → Option Net
  pub addr : Net → ℕ
  pub prefix_len : Net → ℕ

pub record CidrC : Type 0 where
  pub addr : ℕ
  pub prefix_len : ℕ

pub record OptionC (T : Type 0) : Type 0 where
  pub is_some : Bool
  pub value : Option T

-- `Option::from(OptionC)`.
unfoldable pub option_from : {T : Type 0} → OptionC T → Outcome Unit (Option T)
option_from value = if value.is_some then (unwrap value.value >>= λ x. ok (some x)) else ok none

-- `OptionC::from(Option)`.
unfoldable pub option_c_from : {T : Type 0} → Option T → OptionC T
option_c_from none = record { is_some = false; value = none }
option_c_from (some v) = record { is_some = true; value = some v }

pub record ExtendC : Type 0 where
  pub item_kind : OptionC ItemKind

unfoldable pub extend_from : ExtendC → Outcome Unit Extend
extend_from value = option_from value.item_kind >>= λ k. ok (record { item_kind = k })

unfoldable pub extend_c_from : Extend → ExtendC
extend_c_from value = record { item_kind = option_c_from value.item_kind }

pub record ItemC : Type 0 where
  pub cidr : CidrC
  pub gateway : ℕ
  pub interface_index : ℕ
  pub extend : ExtendC

module _ {Net : Type 0} (parts : NetParts Net) where
  unfoldable pub net_from : CidrC → Outcome Unit Net
  net_from value = unwrap (parts.new value.addr value.prefix_len)

  unfoldable pub cidr_c_from : Net → CidrC
  cidr_c_from value = record { addr = parts.addr value; prefix_len = parts.prefix_len value }

  unfoldable pub item_from : ItemC → Outcome Unit (Item Net)
  item_from value = net_from value.cidr >>= λ cidr. extend_from value.extend >>= λ extend.
      ok (record {
        cidr = cidr;
        gateway = value.gateway;
        interface_index = value.interface_index;
        extend = extend;
      })

  unfoldable pub item_c_from : Item Net → ItemC
  item_c_from value = record {
    cidr = cidr_c_from value.cidr;
    gateway = value.gateway;
    interface_index = value.interface_index;
    extend = extend_c_from value.extend;
  }

  -- `Option::<ItemC>::from(optc).map(Item::from)`.
  unfoldable pub items_from : Option ItemC → Outcome Unit (Option (Item Net))
  items_from none = ok none
  items_from (some i) = item_from i >>= λ item. ok (some item)

  -- The functions of the library, on the states behind its handle.
  pub record ExternalRoutingTable (Handle : Type 0) : Type 0 where
    pub add_fn : Handle → ItemC → Handle
    pub remove_fn : Handle → CidrC → OptionC ItemC × Handle
    pub find_fn : Handle → (src to : ℕ) → OptionC ItemC

  module _ {Handle : Type 0} (ext : ExternalRoutingTable Handle) where
    unfoldable pub add : Item Net → Handle → Handle
    add item handle = ext.add_fn handle (item_c_from item)

    unfoldable pub remove : Net → Handle → Outcome Unit (Option (Item Net)) × Handle
    remove cidr handle =
        let called = ext.remove_fn handle (cidr_c_from cidr) in
        (option_from called.0 >>= items_from, called.1)

    unfoldable pub find : Handle → (src to : ℕ) → Outcome Unit (Option (Item Net))
    find handle src to = option_from (ext.find_fn handle src to) >>= items_from

  option_from-option_c_from : {T : Type 0} (o : Option T) → option_from (option_c_from o) ≡ ok o
  unfolding option_from option_c_from
  option_from-option_c_from none = refl
  option_from-option_c_from (some v) = refl

  item_from-item_c_from :
      (new_parts : (n : Net) → parts.new (parts.addr n) (parts.prefix_len n) ≡ some n)
      (item : Item Net)
      → item_from (item_c_from item) ≡ ok item
  unfolding item_from item_c_from net_from cidr_c_from extend_from extend_c_from
  item_from-item_c_from new_parts item =
      rw (new_parts item.cidr, option_from-option_c_from item.extend.item_kind) refl

  -- Where `Ipv4Net::new` gives a network back from its address and its prefix length, what is turned
  -- into the C layout of an answer of the library, an entry or none, is the same entry or none after
  -- the conversions of `remove` and `find`.
  pub items_from-item_c_from :
      (new_parts : (n : Net) → parts.new (parts.addr n) (parts.prefix_len n) ≡ some n)
      (o : Option (Item Net))
      → (option_from (option_c_from (Options.map item_c_from o)) >>= items_from) ≡ ok o
  unfolding option_from option_c_from items_from
  items_from-item_c_from new_parts none = refl
  items_from-item_c_from new_parts (some item) = rw (item_from-item_c_from new_parts item) refl
