-- ===== src/Zygote/Ancestors.antt =====
-- Why the search for a directory in `print_diagnostics` of src/linux/zygote.rs ends.
use mathlib.Core.List.{reverse, reverse_aux}
use minion.Base.{
  ℕ, zero, suc, ◌+◌, ◌-◌, ◌≤◌, ◌<◌, ◌≡◌, refl, subst, ◌∙◌, ◌⊎◌, inl, inr, Bool-cases, Option-cases,
  true, false, none, some, [], ◌∷◌, Text, arith, length, take, drop, length-append, length-take,
  length-drop,
}
use minion.Os.{Env, History, Result, success, failure, attempt, sys_number, continue, ok, ◌>>=◌}
use minion.Os.Calls.{metadata}
use minion.Options.Paths.{is_absolute}
use minion.Zygote.Diagnostics.{trim, cut, start_length, body, popped, pop, is_dir, existing_prefix}

length-reverse_aux : (l r : Text) → length (reverse_aux l r) ≡ length l + length r
length-reverse_aux [] r = omega arith
length-reverse_aux (x ∷ l) r = omega (arith, length-reverse_aux l (x ∷ r))

length-reverse : (l : Text) → length (reverse l) ≡ length l
length-reverse l = omega (arith, length-reverse_aux l [])

length-trim : (r : Text) → length (trim r) ≤ length r
unfolding trim
length-trim [] = omega arith
length-trim (c ∷ []) = ground arith
length-trim (c ∷ d ∷ r) = ground (arith, length-trim (d ∷ r), length-trim r)

length-cut : (c : ℕ) (r : Text) → length (cut (c ∷ r)) ≤ length r
unfolding cut
length-cut c [] = ground arith
length-cut c (d ∷ r) = ground (arith, length-cut d r)

length-body : (p : Text) → length (body p) ≤ length p - start_length p
unfolding body
length-body p = omega (
  arith,
  length-trim (reverse (drop (start_length p) p)),
  length-reverse (drop (start_length p) p),
  length-drop (start_length p) p,
)

-- An absolute path of which nothing is left but separators and pieces `.`.
abbrev pub IsRoot : Text → Type 0
IsRoot p = (is_absolute p ≡ true) × (body p ≡ [])

start_length-absolute : (p : Text) → is_absolute p ≡ true → (start_length p ≡ 1) × (0 < length p)
unfolding is_absolute start_length
start_length-absolute [] e = cc
start_length-absolute (c ∷ []) e = ground arith
start_length-absolute (c ∷ d ∷ p) e = ground arith

popped-absolute : (p b : Text) → is_absolute p ≡ true → is_absolute (popped p b) ≡ true
unfolding popped is_absolute start_length
popped-absolute [] b e = cc
popped-absolute p [] e = rw e e
popped-absolute (x ∷ p) (c ∷ r) e = rw ((start_length-absolute (x ∷ p) e).0) e

shorter :
    (p b : Text) → body p ≡ b → is_absolute p ≡ true → IsRoot p ⊎ (length (popped p b) < length p)
unfolding popped
shorter p [] same e = inl (e, same)
shorter p (c ∷ r) same e =
    let (one, some_length) = start_length-absolute p e in
    let fits : length (c ∷ r) ≤ length p - start_length p =
      subst (λ b. length b ≤ length p - start_length p) same (length-body p) in
    inr (
      rw one (
        omega (
          arith,
          length-append (take 1 p) (reverse (trim (cut (c ∷ r)))),
          length-take 1 p,
          length-reverse (trim (cut (c ∷ r))),
          length-trim (cut (c ∷ r)),
          length-cut c r,
          fits,
          one,
          some_length,
        )))

pop-absolute : (p : Text) → is_absolute p ≡ true → is_absolute (pop p) ≡ true
unfolding pop
pop-absolute p e = popped-absolute p (body p) e

-- A path that is not the root becomes shorter.
pop_shorter : (p : Text) → is_absolute p ≡ true → IsRoot p ⊎ (length (pop p) < length p)
unfolding pop
pop_shorter p e = shorter p (body p) refl e

-- The path after so many calls of `pop`.
unfoldable pub ancestor : ℕ → Text → Text
unfolding pop
ancestor zero p = p
ancestor (suc k) p = ancestor k (pop p)

abbrev pub stat : Env → History → Text → Result ℕ ℕ
stat env h p = elim (env.status h (metadata p)) [
  | none ↦ success (env.number h (metadata p))
  | some errno ↦ failure errno
]

abbrev pub IsDirectory : Env → History → Text → Type 0
IsDirectory env h p = is_dir (stat env h p) ≡ true

module _ (E : Type 0) (env : Env) (h : History) (n : ℕ) (p : Text) where
  attempted : attempt {F = E} (sys_number (metadata p)) env h ≡ (ok (stat env h p), metadata p ∷ h)
  unfolding attempt sys_number
  attempted = elim (Option-cases (env.status h (metadata p))) [
    | inl e ↦ rw (e, stat) refl
    | inr (errno, e) ↦ rw (e, stat) refl
  ]

  found :
      IsDirectory env h p → existing_prefix {E = E} (suc n) p env h ≡ (ok (some p), metadata p ∷ h)
  unfolding existing_prefix ◌>>=◌
  found e = rw (◌>>=◌, attempted) (rw (continue, e) refl)

  passed :
      is_dir (stat env h p) ≡ false
      → existing_prefix {E = E} (suc n) p env h
        ≡ existing_prefix {E = E} n (pop p) env (metadata p ∷ h)
  unfolding existing_prefix ◌>>=◌
  passed e = rw (◌>>=◌, attempted) (rw (continue, e) refl)

-- The calls of a search that ends after `k` steps up, the newest first.
abbrev pub looked : ℕ → Text → History → History
looked zero p h = metadata p ∷ h
looked (suc k) p h = looked k (pop p) (metadata p ∷ h)

-- The path `k` steps up was a directory when it was looked at, and none below it was.
abbrev pub FoundAt : Env → ℕ → Text → History → Type 0
FoundAt env zero p h = IsDirectory env h p
FoundAt env (suc k) p h = (is_dir (stat env h p) ≡ false) × FoundAt env k (pop p) (metadata p ∷ h)

Finds : Type 0 → Env → History → ℕ → Text → Type 0
Finds E env h n p =
    (k : ℕ) × (existing_prefix {E = E} n p env h ≡ (ok (some (ancestor k p)), looked k p h))
    × FoundAt env k p h

search-Finds :
    (E : Type 0) (env : Env) (h : History) (n : ℕ) (p : Text)
    → is_absolute p ≡ true
    → ((h' : History) (q : Text) → IsRoot q → IsDirectory env h' q)
    → length p ≤ n
    → Finds E env h n p
unfolding Finds ancestor
search-Finds E env h zero p e root l = absurd (omega (arith, (start_length-absolute p e).1))
search-Finds E env h (suc n) p e root l = elim (Bool-cases (is_dir (stat env h p))) [
  | inl dir ↦ (0, found E env h n p dir, dir)
  | inr other ↦ elim (pop_shorter p e) [
    | inl r ↦ absurd (let dir = root h p r in cc)
    | inr less ↦
        let (k, result, at) =
          search-Finds E env (metadata p ∷ h) n (pop p) (pop-absolute p e) root (omega arith) in
        let both : FoundAt env (suc k) p h = (other, at) in
        (suc k, passed E env h n p other ∙ result, both)
  ]
]

-- If the root is always a directory, the search for an existing directory ends for an absolute path
-- after at most as many rounds as the path has bytes, at the first of the path and its ancestors
-- that is a directory.
pub existing_prefix-total :
    (E : Type 0) (env : Env) (h : History) (p : Text)
    → is_absolute p ≡ true
    → ((h' : History) (q : Text) → IsRoot q → IsDirectory env h' q)
    → (k : ℕ) × (existing_prefix {E = E} (length p) p env h
        ≡ (ok (some (ancestor k p)), looked k p h))
      × FoundAt env k p h
unfolding Finds
existing_prefix-total E env h p e root = search-Finds E env h (length p) p e root (omega arith)
