-- ===== src/Uids/Laws.antt =====
-- What a call of the allocator of src/linux/uid_alloc.rs returns and what it leaves behind.
use minion.Base.{
  ℕ, zero, suc, ◌+◌, ◌-◌, ◌≤◌, ◌<◌, ◌≡◌, refl, ◌⊎◌, inl, inr, true, false, Option, none, some, List,
  [], ◌∷◌, arith, Bool-cases, ◌==◌, if◌then◌else◌, ap,
}
use native.Mathlib.Decide.{ℕ_discrete}
use minion.Uids.{UidAllocator, contains, insert, without, remove, scan, allocate, deallocate}

-- What a loop over `rounds` identifiers from `uid` on yields: the first one not in use, or none.
pub record FirstFree (rounds uid : ℕ) (used : List ℕ) (r : List ℕ × Option ℕ) : Type 0 where
  pub found :
      (v : ℕ)
      → r.1 ≡ some v
      → (uid ≤ v) × (v < uid + rounds) × (contains used v ≡ false) × (r.0 ≡ v ∷ used)
  pub first : (v w : ℕ) → r.1 ≡ some v → uid ≤ w → w < v → contains used w ≡ true
  pub full : r.1 ≡ none → (w : ℕ) → uid ≤ w → w < uid + rounds → contains used w ≡ true
  pub kept : r.1 ≡ none → r.0 ≡ used

-- A taken identifier at the front of the range changes nothing but the range.
FirstFree-skip :
    (n uid : ℕ) (used : List ℕ) (r : List ℕ × Option ℕ)
    → contains used uid ≡ true
    → FirstFree n (uid + 1) used r
    → FirstFree (suc n) uid used r
FirstFree-skip n uid used r taken f = record {
  found = λ v e. let (a, b, c, d) = f.found v e in (omega arith, omega arith, c, d);
  first = λ v w e l g. elim (ℕ_discrete w uid) [
    | yes p ↦ rw p taken
    | no p ↦ f.first v w e (omega arith) g
  ];
  full = λ e w l g. elim (ℕ_discrete w uid) [
    | yes p ↦ rw p taken
    | no p ↦ f.full e w (omega arith) (omega arith)
  ];
  kept = f.kept;
}

FirstFree-hit :
    (n uid : ℕ) (used : List ℕ)
    → contains used uid ≡ false
    → FirstFree (suc n) uid used (uid ∷ used, some uid)
FirstFree-hit n uid used free = record {
  found = λ v e. (ground arith, ground arith, ground arith, ground arith);
  first = λ v w e l g. absurd (ground arith);
  full = λ e. cc;
  kept = λ e. cc;
}

scan-FirstFree : (n uid : ℕ) (used : List ℕ) → FirstFree n uid used (scan n uid used)
unfolding scan insert
scan-FirstFree zero uid used = record {
  found = λ v e. cc;
  first = λ v w e. cc;
  full = λ e w l g. absurd (omega arith);
  kept = λ e. refl;
}
scan-FirstFree (suc n) uid used = elim (Bool-cases (contains used uid)) [
  | inl e ↦ rw e (FirstFree-skip n uid used _ e (scan-FirstFree n (uid + 1) used))
  | inr e ↦ rw e (FirstFree-hit n uid used e)
]

-- An allocation yields the lowest identifier of `low..high` that is not in use, and marks it used;
-- every identifier of the range below it is in use, and the bounds stay.
pub allocate_lowest_free :
    (a : UidAllocator) (uid : ℕ)
    → (allocate a).1 ≡ some uid
    → (a.low ≤ uid)
      × (uid < a.high)
      × (contains a.used uid ≡ false)
      × ((w : ℕ) → a.low ≤ w → w < uid → contains a.used w ≡ true)
      × ((allocate a).0 ≡ record a { used = uid ∷ a.used })
unfolding allocate
allocate_lowest_free a uid e =
    let f = scan-FirstFree (a.high - a.low) a.low a.used in
    let (l, g, c, d) = f.found uid e in
    (l, omega arith, c, (λ w. f.first uid w e), ap (λ u. record a { used = u }) d)

-- An allocation fails exactly when the whole range is in use, and then changes nothing.
pub allocate-none :
    (a : UidAllocator)
    → (allocate a).1 ≡ none
    → ((w : ℕ) → a.low ≤ w → w < a.high → contains a.used w ≡ true) × ((allocate a).0 ≡ a)
unfolding allocate
allocate-none a e =
    let f = scan-FirstFree (a.high - a.low) a.low a.used in
    ((λ w l g. f.full e w l (omega arith)), ap (λ u. record a { used = u }) (f.kept e))

without_absent : (uid : ℕ) (xs : List ℕ) → contains xs uid ≡ false → without uid xs ≡ xs
unfolding contains without
without_absent uid [] e = refl
without_absent uid (x ∷ xs) e = ground (arith, without_absent uid xs)

pub contains-without :
    (uid w : ℕ) (xs : List ℕ)
    → contains (without uid xs) w ≡ (if uid == w then false else contains xs w)
unfolding contains without
contains-without uid w [] = ground arith
contains-without uid w (x ∷ xs) = ground (arith, contains-without uid w xs)

-- Giving back what was just allocated restores the allocator as it was.
pub deallocate-allocate :
    (a : UidAllocator) (uid : ℕ)
    → (allocate a).1 ≡ some uid
    → deallocate (allocate a).0 uid ≡ some a
deallocate-allocate a uid e =
    let (_, _, free, _, after) = allocate_lowest_free a uid e in
    rw after
      (unfold deallocate remove contains without in ground (arith, without_absent uid a.used free))

-- Giving back an identifier frees that one and no other; giving back one that is not in use panics.
pub deallocate_lem :
    (a : UidAllocator) (uid : ℕ)
    → ((contains a.used uid ≡ false) × (deallocate a uid ≡ none))
      ⊎ ((b : UidAllocator) × (deallocate a uid ≡ some b)
          × (contains a.used uid ≡ true)
          × (b.low ≡ a.low)
          × (b.high ≡ a.high)
          × ((w : ℕ) → contains b.used w ≡ (if uid == w then false else contains a.used w)))
unfolding deallocate remove
deallocate_lem a uid = elim (Bool-cases (contains a.used uid)) [
  | inl e ↦ inr (
    record a { used = without uid a.used },
    rw e,
    e,
    refl,
    refl,
    λ w. contains-without uid w a.used,
  )
  | inr e ↦ inl (e, rw e)
]
