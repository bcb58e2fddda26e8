-- ===== src/Server/Register.antt =====
-- `Tunnel::init` (src/server/mod.rs): the messages of a tunnel that is not registered yet. Times
-- are seconds since the epoch; the task that forgets a nonce 600 seconds later is `forget`.
use fubuki_test.Base.{
  ℕ, ◌+◌, ◌≤◌, ◌≡◌, refl, Bool, true, false, Bool-cases, inl, inr, ◌&&◌, Option, none, some, leb,
  arith, Outcome, ok, err, panic,
}
use fubuki_test.Ipnet.{IpNet}
use fubuki_test.Protocol.{
  Register, Node, GroupContent, AllocateError, RegisterError, invalid_virtual_address, timeout,
  nonce_repeat, TcpMsg,
}
use fubuki_test.Server.{Set, with_key, without_key, GroupHandle, join}
use fubuki_test.Server.Pool.{AddressPool, get_idle_addr, allocate}

pub record Session (Net : Type 0) : Type 0 where
  pub nonces : Set
  pub pool : AddressPool Net
  pub handle : GroupHandle Net

-- Whether `init` waits for a further message, returns with the node registered, or returns an error.
pub data InitEnd : Type 0 where
  goes_on registers fails : InitEnd

pub record InitStep (Net : Type 0) : Type 0 where
  pub answer : Option (TcpMsg Net)
  pub end : InitEnd
  pub session : Session Net

-- `(-300..=300).contains(&(now - register_time))`
unfoldable pub in_window : (now register_time : ℕ) → Bool
in_window now register_time = leb now (register_time + 300) && leb register_time (now + 300)

module _ {Net : Type 0} (ip : IpNet Net) where
  abbrev pub node_from : Register Net → Node Net
  node_from msg = record {
    name = msg.node_name;
    virtual_addr = msg.virtual_addr;
    lan_udp_addr = msg.lan_udp_socket_addr;
    wan_udp_addr = none;
    mode = msg.proto_mod;
    allowed_ips = msg.allowed_ips;
    register_time = msg.register_time;
    register_nonce = msg.nonce;
  }

  abbrev pub refuse : RegisterError → Session Net → InitStep Net
  refuse e s = record { answer = some (TcpMsg.register_res (inl e)); end = fails; session = s }

  abbrev pub admit :
      (clock : ℕ) → GroupContent Net → Register Net → Session Net → AddressPool Net → InitStep Net
  admit clock gc msg s pool = record {
    answer = some (TcpMsg.register_res (inr gc));
    end = registers;
    session = record s { pool = pool; handle = join clock (node_from msg) s.handle };
  }

  -- From the result of `allocate` on; `clock` is the monotonic clock.
  abbrev pub allocated :
      (clock : ℕ)
      → GroupContent Net
      → Register Net
      → Session Net
      → Outcome AllocateError (AddressPool Net)
      → InitStep Net
  allocated clock gc msg s (err e) = refuse (invalid_virtual_address e) s
  allocated clock gc msg s panic = record { answer = none; end = fails; session = s }
  allocated clock gc msg s (ok pool) = admit clock gc msg s pool

  abbrev pub noted : Register Net → Session Net → Session Net
  noted msg s = record s { nonces = with_key msg.nonce s.nonces }

  -- The arm for a register message, given whether it is in time, whether its nonce is known, and
  -- what `allocate` returns.
  abbrev pub judge :
      (clock : ℕ)
      → GroupContent Net
      → Register Net
      → Session Net
      → (in_time known : Bool) → Outcome AllocateError (AddressPool Net)
      → InitStep Net
  judge clock gc msg s false known o = refuse timeout s
  judge clock gc msg s true true o = refuse nonce_repeat s
  judge clock gc msg s true false o = allocated clock gc msg (noted msg s) o

  unfoldable pub register :
      (clock now : ℕ) → GroupContent Net → Register Net → Session Net → InitStep Net
  register clock now gc msg s =
      judge clock gc msg s (in_window now msg.register_time) (s.nonces msg.nonce)
        (allocate ip msg.virtual_addr s.pool)

  abbrev pub offer : Net → Option ℕ → Option (ℕ × Net)
  offer range none = none
  offer range (some v) = some (v, range)

  -- One pass of the loop in `init`.
  unfoldable pub init_msg :
      (clock now : ℕ) → GroupContent Net → TcpMsg Net → Session Net → InitStep Net
  init_msg clock now gc (TcpMsg.register msg) s = register clock now gc msg s
  init_msg clock now gc TcpMsg.get_idle_virtual_addr s = record {
    answer =
        some (
          TcpMsg.get_idle_virtual_addr_res
            (offer s.handle.address_range (get_idle_addr ip s.pool)));
    end = goes_on;
    session = s;
  }
  init_msg clock now gc msg s = record { answer = none; end = fails; session = s }

  unfoldable pub forget : (nonce : ℕ) → Session Net → Session Net
  forget nonce s = record s { nonces = without_key nonce s.nonces }

  window-length :
      (now later time : ℕ)
      → in_window now time ≡ true
      → in_window later time ≡ true
      → later ≤ now + 600
  unfolding in_window
  window-length now later time h k = ground arith

  -- A register message that was in time once is refused when it comes again, at any later moment
  -- and in any state of the group, if the nonce is still known up to and including 600 seconds
  -- after the first time.
  pub register-replayed :
      (clock now later : ℕ) (gc : GroupContent Net) (msg : Register Net) (s : Session Net)
      → in_window now msg.register_time ≡ true
      → (later ≤ now + 600 → s.nonces msg.nonce ≡ true)
      → (register clock later gc msg s).end ≡ fails
  unfolding register
  register-replayed clock now later gc msg s first known =
      elim (Bool-cases (in_window later msg.register_time)) [
        | inr late ↦ rw late refl
        | inl in_time ↦
            let seen = known (window-length now later msg.register_time first in_time) in
            rw (in_time, seen) refl
      ]

  -- The node is registered: the answer is the group's content, the nonce is known, the pool is the
  -- one that `allocate` returned, and the node of the message has joined at this time.
  pub record IsRegistered (clock : ℕ) (gc : GroupContent Net) (msg : Register Net) (s : Session Net)
      (allocated_pool : AddressPool Net) (r : InitStep Net) : Type 0 where
    pub answer : r.answer ≡ some (TcpMsg.register_res (inr gc))
    pub nonces : r.session.nonces ≡ with_key msg.nonce s.nonces
    pub pool : r.session.pool ≡ allocated_pool
    pub handle :
        r.session.handle
        ≡ join clock
            (record {
              name = msg.node_name;
              virtual_addr = msg.virtual_addr;
              lan_udp_addr = msg.lan_udp_socket_addr;
              wan_udp_addr = none;
              mode = msg.proto_mod;
              allowed_ips = msg.allowed_ips;
              register_time = msg.register_time;
              register_nonce = msg.nonce;
            })
            s.handle

  judge-registers :
      (clock : ℕ) (gc : GroupContent Net) (msg : Register Net) (s : Session Net)
      (in_time known : Bool) (o : Outcome AllocateError (AddressPool Net))
      → (judge clock gc msg s in_time known o).end ≡ registers
      → (in_time ≡ true)
        × (known ≡ false)
        × ((pool : AddressPool Net) × (o ≡ ok pool)
            × IsRegistered clock gc msg s pool (judge clock gc msg s in_time known o))
  judge-registers clock gc msg s false known o h = ground arith
  judge-registers clock gc msg s true true o h = ground arith
  judge-registers clock gc msg s true false (err e) h = ground arith
  judge-registers clock gc msg s true false panic h = ground arith
  judge-registers clock gc msg s true false (ok pool) h = (
    refl,
    refl,
    (pool, refl, record { answer = refl; nonces = refl; pool = refl; handle = refl }),
  )

  -- `init` registers a node only where the message is in time, its nonce was not known and
  -- `allocate` gave the node's address; then the nonce is known, the pool is the one that
  -- `allocate` returned, the node that the message describes has joined the group, and the answer is the group's content.
  pub register-registers :
      (clock now : ℕ) (gc : GroupContent Net) (msg : Register Net) (s : Session Net)
      → (register clock now gc msg s).end ≡ registers
      → (in_window now msg.register_time ≡ true)
        × (s.nonces msg.nonce ≡ false)
        × ((pool : AddressPool Net) × (allocate ip msg.virtual_addr s.pool ≡ ok pool)
            × IsRegistered clock gc msg s pool (register clock now gc msg s))
  unfolding register
  register-registers clock now gc msg s h =
      judge-registers clock gc msg s (in_window now msg.register_time) (s.nonces msg.nonce)
        (allocate ip msg.virtual_addr s.pool) h
