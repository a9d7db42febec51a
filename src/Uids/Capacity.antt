-- ===== src/Uids/Capacity.antt =====
-- The allocator of src/linux/uid_alloc.rs over a history of calls: how many identifiers it can
-- give out, and what stays true of it.
use minion.Base.{
  ℕ, zero, suc, ◌+◌, ◌-◌, ◌≤◌, ◌<◌, ◌≡◌, inl, inr, true, false, some, List, [], ◌∷◌, arith,
  Option-cases, length,
}
use minion.Uids.{UidAllocator, contains, without, remove, new, allocate, deallocate}
use minion.Uids.Laws.{contains-without, allocate_lowest_free, allocate-none}

length-without_le : (uid : ℕ) (xs : List ℕ) → length (without uid xs) ≤ length xs
unfolding without
length-without_le uid [] = omega arith
length-without_le uid (x ∷ xs) = ground (arith, length-without_le uid xs)

length-without :
    (uid : ℕ) (xs : List ℕ) → contains xs uid ≡ true → length (without uid xs) < length xs
unfolding contains without
length-without uid [] e = cc
length-without uid (x ∷ xs) e = ground (arith, length-without uid xs, length-without_le uid xs)

-- A list that holds `n` consecutive identifiers has at least `n` entries.
le-length :
    (n uid : ℕ) (used : List ℕ)
    → ((w : ℕ) → uid ≤ w → w < uid + n → contains used w ≡ true)
    → n ≤ length used
le-length zero uid used h = omega arith
le-length (suc n) uid used h =
    let hit = h (uid + n) (omega arith) (omega arith) in
    let rest =
      le-length n uid (without (uid + n) used)
        λ w l g. rw (contains-without (uid + n) w used) (ground (arith, h w l (omega arith))) in
    omega (arith, rest, length-without (uid + n) used hit)

-- With fewer identifiers in use than the range has, an allocation succeeds.
pub allocate_total :
    (a : UidAllocator) → length a.used < a.high - a.low → (uid : ℕ) × ((allocate a).1 ≡ some uid)
allocate_total a room = elim (Option-cases (allocate a).1) [
  | inl e ↦ absurd (
      omega (
        arith,
        le-length (a.high - a.low) a.low a.used (λ w l g. (allocate-none a e).0 w l (omega arith)),
      ))
  | inr (uid, e) ↦ (uid, e)
]

abbrev Distinct : List ℕ → Type 0
Distinct [] = Unit {0}
Distinct (x ∷ xs) = (contains xs x ≡ false) × Distinct xs

-- The identifiers in use are distinct and lie in the range.
pub record IsValid (a : UidAllocator) : Type 0 where
  pub in_range : (w : ℕ) → contains a.used w ≡ true → (a.low ≤ w) × (w < a.high)
  pub distinct : Distinct a.used

-- One call of either method, by any thread that holds the allocator.
pub data Step (a : UidAllocator) : UidAllocator → Type 0 where
  allocates : {b : UidAllocator} → b ≡ (allocate a).0 → Step a b
  deallocates : {b : UidAllocator} (uid : ℕ) → deallocate a uid ≡ some b → Step a b

pub data Reach (a : UidAllocator) : UidAllocator → Type 0 where
  here : Reach a a
  next : {b c : UidAllocator} → Reach a b → Step b c → Reach a c

Distinct-without : (uid : ℕ) (xs : List ℕ) → Distinct xs → Distinct (without uid xs)
unfolding without
Distinct-without uid [] d = tt
Distinct-without uid (x ∷ xs) d =
    ground (arith, contains-without uid x xs, Distinct-without uid xs d.1)

deallocated :
    (a : UidAllocator) (uid : ℕ) {b : UidAllocator}
    → deallocate a uid ≡ some b
    → b ≡ record a { used = without uid a.used }
unfolding deallocate remove
deallocated a uid e = ground arith

allocate-IsValid : (a : UidAllocator) → IsValid a → IsValid (allocate a).0
allocate-IsValid a v = elim (Option-cases (allocate a).1) [
  | inl e ↦ rw ((allocate-none a e).1) v
  | inr (uid, e) ↦
      let (l, g, free, _, after) = allocate_lowest_free a uid e in
      rw after (record {
        in_range = λ w. unfold contains in ground (arith, v.in_range w);
        distinct = (free, v.distinct);
      })
]

deallocate-IsValid :
    (a : UidAllocator) (uid : ℕ) {b : UidAllocator}
    → IsValid a
    → deallocate a uid ≡ some b
    → IsValid b
deallocate-IsValid a uid v e = rw (deallocated a uid e) (record {
  in_range = λ w h. ground (arith, contains-without uid w a.used, v.in_range w);
  distinct = Distinct-without uid a.used v.distinct;
})

new-IsValid : (low high : ℕ) {a : UidAllocator} → new low high ≡ some a → IsValid a
unfolding new
new-IsValid low high {a} e =
    let e' : a ≡ record { low = low; high = high; used = [] } = ground arith in
    rw e' (record { in_range = λ w. unfold contains in λ h. cc; distinct = tt })

-- After any calls on a new allocator the identifiers in use are distinct and lie in its range.
pub Reach-IsValid :
    (low high : ℕ) {a b : UidAllocator} → new low high ≡ some a → Reach a b → IsValid b
Reach-IsValid low high e here = new-IsValid low high e
Reach-IsValid low high e (next {b} {c} r (allocates p)) =
    rw p (allocate-IsValid b (Reach-IsValid low high e r))
Reach-IsValid low high e (next {b} {c} r (deallocates uid p)) =
    deallocate-IsValid b uid (Reach-IsValid low high e r) p
