-- ===== src/Allocator.antt =====
-- `Bytes` and `alloc` (src/common/allocator.rs). What `Arc` shares is named by a number, a `Bytes` is
-- a range of it. `usize` does not overflow: every size is at most the buffer's.
pub mod Interleaving
pub mod Sizes
mod Tests
use fubuki_test.Base.{
  ℕ, suc, ◌+◌, ◌-◌, Option, none, some, ◌⊎◌, inl, inr, ltb, if◌then◌else◌, Outcome, ok, err, panic,
  Bool, not, ◌&&◌, ◌==◌,
}

pub record Bytes : Type 0 where
  pub inner : ℕ
  pub start : ℕ
  pub end : ℕ

abbrev pub buffer_size : ℕ
buffer_size = 262144

unfoldable pub new : (inner len : ℕ) → Bytes
new inner len = record { inner = inner; start = 0; end = len }

unfoldable pub len : Bytes → ℕ
len self = self.end - self.start

-- `split_mut`: the new piece and what is left, or the end that it would have had.
unfoldable pub split_mut : (size : ℕ) → Bytes → Outcome ℕ (Bytes × Bytes)
split_mut size self =
    let new_start = self.start + size in
    if ltb self.end new_start
    then err new_start
    else ok (
      record { inner = self.inner; start = self.start; end = new_start },
      record self { start = new_start },
    )

-- `split` among threads. The shared part is the atomic `start`; a thread keeps the value that it saw
-- last. `attempt` is one pass of the loop: a failed exchange leaves the value seen then.
pub data Attempt : Type 0 where
  too_long : (new_start : ℕ) → Attempt
  retries : (seen : ℕ) → Attempt
  takes : Bytes → Attempt

-- `spurious` is whether the exchange fails although the value is the one expected.
unfoldable pub attempt : (spurious : Bool) → (size seen : ℕ) → Bytes → Attempt × Bytes
attempt spurious size seen self =
    let new_start = seen + size in
    if ltb self.end new_start
    then (too_long new_start, self)
    else (if not spurious && self.start == seen
        then (
          takes (record { inner = self.inner; start = seen; end = new_start }),
          record self { start = new_start },
        )
        else (retries self.start, self))

-- `BUFFER` and the number of the next allocation of memory.
pub record Shared : Type 0 where
  pub buffer : Option Bytes
  pub next : ℕ

abbrev pub cut : (size : ℕ) → Option Bytes → Outcome ℕ (Bytes × Bytes)
cut size none = err 0
cut size (some v) = split_mut size v

-- `bytes.split_mut(size).unwrap()` of new memory, which becomes the buffer.
abbrev pub install : Shared → Outcome ℕ (Bytes × Bytes) → Outcome ℕ (Bytes × Shared)
install s (ok (piece, rest)) = ok (piece, record { buffer = some rest; next = suc s.next })
install s (err e) = panic
install s panic = panic

abbrev pub fresh : (size : ℕ) → Shared → Outcome ℕ (Bytes × Bytes) → Outcome ℕ (Bytes × Shared)
fresh size s (ok (piece, rest)) = ok (piece, record s { buffer = some rest })
fresh size s panic = panic
fresh size s (err e) = install s (split_mut size (new s.next buffer_size))

-- `alloc` from `BUFFER.write()` on; the part before it is a `split` of the buffer.
unfoldable pub alloc_locked : (size : ℕ) → Shared → Outcome ℕ (Bytes × Shared)
alloc_locked size s = fresh size s (cut size s.buffer)
