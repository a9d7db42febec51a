-- ===== src/Backend/Separation.antt =====
-- Which user identifiers a list of sandboxes of src/linux.rs has, and what an allocator says of them.
use minion.Base.{
  ℕ, zero, suc, ◌≤◌, ◌<◌, ◌≡◌, ◌≢◌, refl, sym, ap, subst, ◌∙◌, ◌⊎◌, inl, inr, true, Option, none,
  some, List, [], ◌∷◌, ◌++◌, arith, length,
}
use minion.Uids.{UidAllocator, contains, deallocate}
use minion.Uids.Laws.{deallocate_lem}
use minion.Sandbox.{LinuxSandbox}
use minion.Backend.{at, put}
use minion.Backend.Grants.{Extends, IsTaken}

abbrev pub Holds : List LinuxSandbox → ℕ → ℕ → Type 0
Holds ss i u = (s : LinuxSandbox) × (at ss i ≡ some s) × (s.dealloc_uid ≡ some u)

-- Identifiers of sandboxes are in use and in the range, and no two sandboxes share one.
pub record IsSeparate (a : UidAllocator) (ss : List LinuxSandbox) : Type 0 where
  pub used : (i u : ℕ) → Holds ss i u → contains a.used u ≡ true
  pub in_range : (i u : ℕ) → Holds ss i u → (a.low ≤ u) × (u < a.high)
  pub apart : (i j u : ℕ) → Holds ss i u → Holds ss j u → i ≡ j

module _ {A : Type 0} where
  at-append :
      (xs : List A) (x y : A) (i : ℕ)
      → at (xs ++ x ∷ []) i ≡ some y
      → (at xs i ≡ some y) ⊎ ((i ≡ length xs) × (y ≡ x))
  unfolding at
  at-append [] x y zero e = inr (refl, cc)
  at-append [] x y (suc i) e = cc
  at-append (a ∷ xs) x y zero e = inl e
  at-append (a ∷ xs) x y (suc i) e = elim (at-append xs x y i e) [
    | inl h ↦ inl h
    | inr (l, same) ↦ inr (ap suc l, same)
  ]

  at-put_cases :
      (xs : List A) (x y : A) (n i : ℕ)
      → at (put xs n x) i ≡ some y
      → ((at xs i ≡ some y) × (i ≢ n)) ⊎ ((i ≡ n) × (y ≡ x))
  unfolding at put
  at-put_cases [] x y n i e = cc
  at-put_cases (a ∷ xs) x y zero zero e = inr (refl, cc)
  at-put_cases (a ∷ xs) x y zero (suc i) e = inl (e, λ p. omega arith)
  at-put_cases (a ∷ xs) x y (suc n) zero e = inl (e, λ p. omega arith)
  at-put_cases (a ∷ xs) x y (suc n) (suc i) e = elim (at-put_cases xs x y n i e) [
    | inl (h, ne) ↦ inl (h, λ p. ne (omega arith))
    | inr (l, same) ↦ inr (ap suc l, same)
  ]

-- More identifiers in use do no harm.
pub IsSeparate-Extends :
    (a b : UidAllocator) (ss : List LinuxSandbox) → Extends a b → IsSeparate a ss → IsSeparate b ss
IsSeparate-Extends a b ss e v = record {
  used = λ i u h. e.used u (v.used i u h);
  in_range = λ i u h. rw (e.low, e.high) (v.in_range i u h);
  apart = v.apart;
}

-- A sandbox that replaces another with the same identifier changes nothing.
pub IsSeparate-put :
    (a : UidAllocator) (ss : List LinuxSandbox) (n : ℕ) (s s' : LinuxSandbox)
    → at ss n ≡ some s
    → s'.dealloc_uid ≡ s.dealloc_uid
    → IsSeparate a ss
    → IsSeparate a (put ss n s')
IsSeparate-put a ss n s s' e same v =
    let held : (i u : ℕ) → Holds (put ss n s') i u → Holds ss i u = λ i u (t, e', own).
      elim (at-put_cases ss s' t n i e') [
        | inl (h, ne) ↦ (t, h, own)
        | inr (l, t') ↦ (s, ap (at ss) l ∙ e, sym same ∙ sym (ap (λ x. x.dealloc_uid) t') ∙ own)
      ] in
    record {
      used = λ i u h. v.used i u (held i u h);
      in_range = λ i u h. v.in_range i u (held i u h);
      apart = λ i j u h h'. v.apart i j u (held i u h) (held j u h');
    }

module _ {a b : UidAllocator} where
  clash : (u : ℕ) → contains a.used u ≡ true → IsTaken a b u → ⊥
  clash u used fresh = let free = fresh.was_free in cc

-- A new sandbox has an identifier that was not in use, if it has one.
pub IsSeparate-append :
    (a b : UidAllocator) (ss : List LinuxSandbox) (s : LinuxSandbox)
    → Extends a b
    → ((u : ℕ) → s.dealloc_uid ≡ some u → IsTaken a b u)
    → IsSeparate a ss
    → IsSeparate b (ss ++ s ∷ [])
IsSeparate-append a b ss s e fresh v =
    let w = IsSeparate-Extends a b ss e v in
    let newcomer : (t : LinuxSandbox) (u : ℕ) → t ≡ s → t.dealloc_uid ≡ some u → IsTaken a b u =
      λ t u same own. fresh u (sym (ap (λ x. x.dealloc_uid) same) ∙ own) in
    record {
      used = λ i u (t, e', own). elim (at-append ss s t i e') [
        | inl h ↦ w.used i u (t, h, own)
        | inr (l, same) ↦ (newcomer t u same own).used
      ];
      in_range = λ i u (t, e', own). elim (at-append ss s t i e') [
        | inl h ↦ w.in_range i u (t, h, own)
        | inr (l, same) ↦ let n = newcomer t u same own in rw (e.low, e.high) (n.above, n.below)
      ];
      apart = λ i j u (t, e', own) (t', f', own'). elim (at-append ss s t i e') [
        | inl h ↦ elim (at-append ss s t' j f') [
          | inl g ↦ v.apart i j u (t, h, own) (t', g, own')
          | inr (m, same') ↦ absurd (clash u (v.used i u (t, h, own)) (newcomer t' u same' own'))
        ]
        | inr (l, same) ↦ elim (at-append ss s t' j f') [
          | inl g ↦ absurd (clash u (v.used j u (t', g, own')) (newcomer t u same own))
          | inr (m, same') ↦ l ∙ sym m
        ]
      ];
    }

-- What the drop of a sandbox does to the allocator.
abbrev pub Released : UidAllocator → UidAllocator → Option ℕ → Type 0
Released a b none = b ≡ a
Released a b (some u) = deallocate a u ≡ some b

KeptUnless : (a b : UidAllocator) (uid : Option ℕ) → Type 0
KeptUnless a b uid =
    (b.low ≡ a.low)
    × (b.high ≡ a.high)
    × ((u : ℕ) → uid ≢ some u → contains a.used u ≡ true → contains b.used u ≡ true)

Released-kept : (a b : UidAllocator) (uid : Option ℕ) → Released a b uid → KeptUnless a b uid
unfolding KeptUnless
Released-kept a b none e = rw e (refl, refl, λ u ne h. h)
Released-kept a b (some v) e = elim (deallocate_lem a v) [
  | inl (_, e') ↦ absurd cc
  | inr (b', e', _, low, high, after) ↦
      let same : b' ≡ b = cc in
      subst (λ x. KeptUnless a x (some v)) same
        (
          low,
          high,
          λ u ne h. let other : v ≢ u = λ p. ne (ap some p) in rw (after u) (ground arith),
        )
]

-- Once a sandbox is dropped, what the others hold is as before.
pub IsSeparate-drop :
    (a b : UidAllocator) (ss : List LinuxSandbox) (n : ℕ) (s s' : LinuxSandbox)
    → at ss n ≡ some s
    → s'.dealloc_uid ≡ none
    → Released a b s.dealloc_uid
    → IsSeparate a ss
    → IsSeparate b (put ss n s')
unfolding KeptUnless
IsSeparate-drop a b ss n s s' e nothing released v =
    let (low, high, kept) = Released-kept a b s.dealloc_uid released in
    let others : (i u : ℕ) → Holds (put ss n s') i u → Holds ss i u × (i ≢ n) = λ i u (t, e', own).
      elim (at-put_cases ss s' t n i e') [
        | inl (h, ne) ↦ ((t, h, own), ne)
        | inr (l, same) ↦
            let gone : t.dealloc_uid ≡ none = ap (λ x. x.dealloc_uid) same ∙ nothing in absurd cc
      ] in
    record {
      used = λ i u h.
          let (held, ne) = others i u h in
          kept u (λ own. ne (v.apart i n u held (s, e, own))) (v.used i u held);
      in_range = λ i u h. rw (low, high) (v.in_range i u (others i u h).0);
      apart = λ i j u h g. v.apart i j u (others i u h).0 (others j u g).0;
    }
