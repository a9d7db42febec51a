-- ===== src/Uids/Tests.antt =====
-- Tests of the allocator of src/linux/uid_alloc.rs, and its theorems at concrete allocators.
use minion.Base.{ℕ, ◌≡◌, refl, none, some, [], ◌∷◌, arith}
use minion.Uids.{UidAllocator, new, allocate, deallocate}
use minion.Uids.Sets.{view, answers, takes, gives, set_allocate, set_deallocate, answers-view}
use minion.Uids.Capacity.{IsValid, here, next, allocates, allocate_total, Reach-IsValid}

abbrev default_bounds : UidAllocator
default_bounds = record { low = 100000; high = 100003; used = 100000 ∷ [] }

inverted_bounds_panic : new 3 2 ≡ none
unfolding new
inverted_bounds_panic = refl

answers-view_example :
    answers allocate deallocate (takes ∷ gives 100001 ∷ gives 7 ∷ []) default_bounds
    ≡ answers set_allocate set_deallocate
        (takes ∷ gives 100001 ∷ gives 7 ∷ [])
        (view default_bounds)
answers-view_example = answers-view (takes ∷ gives 100001 ∷ gives 7 ∷ []) default_bounds

allocate_total_example : (uid : ℕ) × ((allocate default_bounds).1 ≡ some uid)
allocate_total_example = allocate_total default_bounds (omega arith)

Reach-IsValid_example : IsValid (allocate (record { low = 5; high = 6; used = [] })).0
unfolding new
Reach-IsValid_example = Reach-IsValid 5 6 refl (next here (allocates refl))
