-- ===== src/Allocator/Tests.antt =====
-- A run of two allocations.
use fubuki_test.Base.{◌≡◌, refl, none, some, [], ◌∷◌, ok, false}
use fubuki_test.Allocator.{Bytes, buffer_size, Shared, alloc_locked, split_mut, attempt, new}
use fubuki_test.Allocator.Interleaving.{
  passes, locks, Reached, start, stepped, AreApart, Reached-AreApart,
}

abbrev first : Bytes
first = record { inner = 0; start = 0; end = 10 }

abbrev second : Bytes
second = record { inner = 0; start = 10; end = 30 }

abbrev after_first : Shared
after_first = record {
  buffer = some (record { inner = 0; start = 10; end = buffer_size });
  next = 1;
}

abbrev after_second : Shared
after_second = record {
  buffer = some (record { inner = 0; start = 30; end = buffer_size });
  next = 1;
}

first_run : alloc_locked 10 (record { buffer = none; next = 0 }) ≡ ok (first, after_first)
unfolding alloc_locked split_mut new
first_run = refl

second_given : Reached after_second (second ∷ first ∷ [])
unfolding attempt
second_given = stepped (stepped (start 0) (locks 10 first_run)) (passes false 20 10 refl)

apart_example : AreApart (second ∷ first ∷ [])
apart_example = Reached-AreApart after_second (second ∷ first ∷ []) second_given
