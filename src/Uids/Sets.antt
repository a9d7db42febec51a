-- ===== src/Uids/Sets.antt =====
-- The allocator of src/linux/uid_alloc.rs seen from outside: a range and the set of the identifiers
-- in use, without the order in which a `HashSet` keeps them.
use minion.Base.{
  ℕ, zero, suc, ◌+◌, ◌-◌, ◌≡◌, refl, sym, ap, ◌∙◌, inl, inr, Bool, false, Option, none, some, List,
  [], ◌∷◌, ◌==◌, ◌||◌, if◌then◌else◌, Bool-cases, Option-cases, arith, ◌⊎◌,
}
use minion.Uids.{UidAllocator, contains, insert, without, remove, scan, allocate, deallocate}
use minion.Uids.Laws.{allocate_lowest_free, allocate-none, contains-without}

pub record SetAllocator : Type 0 where
  pub low : ℕ
  pub high : ℕ
  pub taken : ℕ → Bool

abbrev pub view : UidAllocator → SetAllocator
view a = record { low = a.low; high = a.high; taken = contains a.used }

-- The least number outside of a set, of `rounds` numbers from `uid` on.
abbrev least : ℕ → ℕ → (ℕ → Bool) → Option ℕ
least zero uid taken = none
least (suc rounds) uid taken =
    let rest = least rounds (uid + 1) taken in if taken uid then rest else some uid

abbrev grown : Option ℕ → SetAllocator → SetAllocator
grown none s = s
grown (some uid) s = record s { taken = λ w. (uid == w) || s.taken w }

unfoldable pub set_allocate : SetAllocator → SetAllocator × Option ℕ
set_allocate s = let uid = least (s.high - s.low) s.low s.taken in (grown uid s, uid)

unfoldable pub set_deallocate : SetAllocator → ℕ → Option SetAllocator
set_deallocate s uid =
    if s.taken uid
    then some (record s { taken = λ w. if uid == w then false else s.taken w })
    else none

pub data Request : Type 0 where
  takes : Request
  gives : ℕ → Request

pub data Answer : Type 0 where
  granted : Option ℕ → Answer
  released : Answer
  panicked : Answer

abbrev reply : {S : Type 0} → (S → List Answer) → S → Option S → List Answer
reply more s none = panicked ∷ more s
reply more s (some s') = released ∷ more s'

-- What the callers of an allocator see. A return that panics removed nothing, and its mutex (of
-- `parking_lot`) is not poisoned, so that the calls of other threads go on.
module _ {S : Type 0} (take : S → S × Option ℕ) (give : S → ℕ → Option S) where
  pub answers : List Request → S → List Answer
  answers [] s = []
  answers (takes ∷ rest) s = granted (take s).1 ∷ answers rest (take s).0
  answers (gives uid ∷ rest) s = reply (answers rest) s (give s uid)

scan-least : (n uid : ℕ) (used : List ℕ) → (scan n uid used).1 ≡ least n uid (contains used)
unfolding scan insert
scan-least zero uid used = refl
scan-least (suc n) uid used = ground (arith, scan-least n (uid + 1) used)

allocate-least :
    (a : UidAllocator) → (allocate a).1 ≡ least (a.high - a.low) a.low (contains a.used)
unfolding allocate
allocate-least a = scan-least (a.high - a.low) a.low a.used

view-allocate :
    (a : UidAllocator)
    → ((allocate a).1 ≡ (set_allocate (view a)).1)
      × (view (allocate a).0 ≡ (set_allocate (view a)).0)
unfolding set_allocate
view-allocate a = elim (Option-cases (allocate a).1) [
  | inl e ↦ (allocate-least a, rw (sym (allocate-least a), e) (ap view (allocate-none a e).1))
  | inr (uid, e) ↦
      let (_, _, _, _, after) = allocate_lowest_free a uid e in
      (allocate-least a, rw (sym (allocate-least a), e, after) (unfold contains in refl))
]

view-deallocate :
    (a : UidAllocator) (uid : ℕ)
    → ((deallocate a uid ≡ none) × (set_deallocate (view a) uid ≡ none))
      ⊎ ((b : UidAllocator) × (deallocate a uid ≡ some b)
          × (set_deallocate (view a) uid ≡ some (view b)))
unfolding deallocate remove set_deallocate
view-deallocate a uid = elim (Bool-cases (contains a.used uid)) [
  | inl e ↦ inr (
    record a { used = without uid a.used },
    rw e,
    rw e (
        ap some (
          ap (λ t. record { low = a.low; high = a.high; taken = t })
            (λ i w. sym (contains-without uid w a.used) i))),
  )
  | inr e ↦ inl (rw e, rw e)
]

-- Whatever is asked of an allocator, in whatever order, its answers are those of the set of its
-- identifiers: a request for an identifier is granted the least one outside of the set, or none if
-- there is none, a return takes the identifier out, and a return of one outside of the set panics.
pub answers-view :
    (rs : List Request) (a : UidAllocator)
    → answers allocate deallocate rs a ≡ answers set_allocate set_deallocate rs (view a)
unfolding answers
answers-view [] a = refl
answers-view (takes ∷ rest) a =
    let (same, after) = view-allocate a in
    rw (same, sym after)
      (ap (λ l. granted (set_allocate (view a)).1 ∷ l) (answers-view rest (allocate a).0))
answers-view (gives uid ∷ rest) a = elim (view-deallocate a uid) [
  | inl (e, f) ↦ rw (e, f) (ap (λ l. panicked ∷ l) (answers-view rest a))
  | inr (b, e, f) ↦ rw (e, f) (ap (λ l. released ∷ l) (answers-view rest b))
]

-- Two allocators that hold the same identifiers, in whatever order, cannot be told apart.
pub same_view :
    (rs : List Request) (a b : UidAllocator)
    → view a ≡ view b
    → answers allocate deallocate rs a ≡ answers allocate deallocate rs b
same_view rs a b e =
    answers-view rs a ∙ ap (answers set_allocate set_deallocate rs) e ∙ sym (answers-view rs b)
