-- ===== src/Uids.antt =====
-- src/linux/uid_alloc.rs: the allocator of sandbox user identifiers. `HashSet<u32>` is a list read
-- through membership; a failed `assert!` is `none`. The mutex makes each method one step.
pub mod Laws
pub mod Capacity
pub mod Sets
mod Tests
use minion.Base.{
  ℕ, zero, suc, ◌+◌, ◌-◌, Bool, true, false, Option, none, some, List, [], ◌∷◌, ◌==◌, ◌||◌, leb,
  if◌then◌else◌,
}

pub record UidAllocator : Type 0 where
  pub low : ℕ
  pub high : ℕ
  pub used : List ℕ

unfoldable pub contains : List ℕ → ℕ → Bool
contains [] uid = false
contains (x ∷ xs) uid = (x == uid) || contains xs uid

-- `HashSet::insert`: whether the value was new.
unfoldable pub insert : ℕ → List ℕ → List ℕ × Bool
insert uid used = if contains used uid then (used, false) else (uid ∷ used, true)

-- `HashSet::remove`: every occurrence goes.
unfoldable pub without : ℕ → List ℕ → List ℕ
without uid [] = []
without uid (x ∷ xs) = let rest = without uid xs in if x == uid then rest else x ∷ rest

unfoldable pub remove : ℕ → List ℕ → List ℕ × Bool
remove uid used = (without uid used, contains used uid)

unfoldable pub new : ℕ → ℕ → Option UidAllocator
new low high = if leb low high then some (record { low = low; high = high; used = [] }) else none

-- `for uid in low..high`, with the rounds left and the loop variable.
unfoldable pub scan : ℕ → ℕ → List ℕ → List ℕ × Option ℕ
scan zero uid used = (used, none)
scan (suc rounds) uid used =
    let rest = scan rounds (uid + 1) (insert uid used).0 in
    if (insert uid used).1 then ((insert uid used).0, some uid) else rest

unfoldable pub allocate : UidAllocator → UidAllocator × Option ℕ
allocate a = let (used, uid) = scan (a.high - a.low) a.low a.used in (record a { used = used }, uid)

unfoldable pub deallocate : UidAllocator → ℕ → Option UidAllocator
deallocate a uid =
    if (remove uid a.used).1 then some (record a { used = (remove uid a.used).0 }) else none
