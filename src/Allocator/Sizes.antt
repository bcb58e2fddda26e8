-- ===== src/Allocator/Sizes.antt =====
-- The sizes of the pieces that `alloc` gives.
use fubuki_test.Base.{
  ℕ, suc, ◌+◌, ◌≤◌, ◌≡◌, refl, inl, inr, false, Bool-cases, Option, none, some, ltb, arith, ok,
}
use fubuki_test.Allocator.{
  Bytes, buffer_size, new, split_mut, Shared, cut, fresh, alloc_locked, install, len,
}

install-len :
    (size : ℕ) (s : Shared)
    → size ≤ buffer_size
    → (r : Bytes × Shared) × (install s (split_mut size (new s.next buffer_size)) ≡ ok r)
      × (len r.0 ≡ size)
unfolding split_mut new len
install-len size s fits =
    let short : ltb buffer_size (0 + size) ≡ false = ground arith in
    (
      (
        record { inner = s.next; start = 0; end = 0 + size },
        record {
          buffer = some (record { inner = s.next; start = 0 + size; end = buffer_size });
          next = suc s.next;
        },
      ),
      rw short refl,
      omega arith,
    )

fresh-len :
    (size : ℕ) (s : Shared) (o : Option Bytes)
    → size ≤ buffer_size
    → (r : Bytes × Shared) × (fresh size s (cut size o) ≡ ok r) × (len r.0 ≡ size)
unfolding split_mut len
fresh-len size s none fits = install-len size s fits
fresh-len size s (some b) fits = elim (Bool-cases (ltb b.end (b.start + size))) [
  | inl long ↦ rw long (install-len size s fits)
  | inr short ↦ (
    (
      record { inner = b.inner; start = b.start; end = b.start + size },
      record s { buffer = some (record b { start = b.start + size }) },
    ),
    rw short refl,
    omega arith,
  )
]

-- Under the lock, an allocation of at most the buffer's size gives a piece of exactly that size,
-- whatever is left of the buffer.
pub alloc_locked-len :
    (size : ℕ) (s : Shared)
    → size ≤ buffer_size
    → (r : Bytes × Shared) × (alloc_locked size s ≡ ok r) × (len r.0 ≡ size)
unfolding alloc_locked
alloc_locked-len size s fits = fresh-len size s s.buffer fits
