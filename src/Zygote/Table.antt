-- ===== src/Zygote/Table.antt =====
-- The descriptor table of the process of a job of src/linux/zygote.rs. It belongs to the kernel: it
-- is a parameter, with what the documentation of its calls says of it.
use mathlib.Core.List.{append_assoc}
use minion.Base.{
  ℕ, ◌≡◌, ◌≢◌, ◌<◌, refl, sym, ◌∙◌, ◌==◌, ◌&&◌, ◌||◌, Bool, true, false, not, Option, none, some,
  List, [], ◌∷◌, ◌++◌, if◌then◌else◌,
}
use minion.Os.{Env, History}
use minion.Os.Calls.{
  Call, set_cloexec, dup2, list_fds, chdir, setgid, setuid, no_new_privs, seccomp_filter,
}
use minion.Zygote.Launch.{dup2_calls}

abbrev pub has : ℕ → List ℕ → Bool
has n [] = false
has n (x ∷ xs) = (n == x) || has n xs

-- Calls that have nothing to do with descriptors.
abbrev pub is_unrelated : Call → Bool
is_unrelated (chdir path) = true
is_unrelated (setgid gid) = true
is_unrelated (setuid uid) = true
is_unrelated no_new_privs = true
is_unrelated (seccomp_filter n program) = true
is_unrelated _ = false

-- What the kernel documents: `file` is what a descriptor refers to after some calls, `cloexec` its
-- flag, and `limit` bounds the numbers of descriptors.
pub record Table (env : Env) (limit : ℕ) (file : History → ℕ → Option ℕ)
    (cloexec : History → ℕ → Bool) : Type 0 where
  pub marks :
      (h : History) (fd n : ℕ)
      → env.status h (set_cloexec fd) ≡ none
      → (file (set_cloexec fd ∷ h) n ≡ file h n)
        × (cloexec (set_cloexec fd ∷ h) n ≡ ((n == fd) || cloexec h n))
  pub duplicates :
      (h : History) (old new n : ℕ)
      → file h old ≢ none
      → new < limit
      → (file (dup2 old new ∷ h) n ≡ (if n == new then file h old else file h n))
        × (cloexec (dup2 old new ∷ h) n
            ≡ (if (n == new) && not (old == new) then false else cloexec h n))
  pub lists :
      (h : History) (n : ℕ)
      → env.status h list_fds ≡ none
      → file (list_fds ∷ h) n ≢ none
      → has n (env.numbers h list_fds) ≡ true
  pub keeps :
      (h : History) (c : Call) (n : ℕ)
      → is_unrelated c ≡ true
      → (file (c ∷ h) n ≡ file h n) × (cloexec (c ∷ h) n ≡ cloexec h n)

abbrev pub later : Option ℕ → Option ℕ → Option ℕ
later (some s) d = some s
later none d = d

-- The number from which the last duplication onto `n` was made.
abbrev pub source : List (ℕ × ℕ) → ℕ → Option ℕ
source [] n = none
source ((new_fd, cur_fd) ∷ rest) n =
    later (source rest n) (if n == new_fd then some cur_fd else none)

-- No descriptor that is still to be duplicated lies on a number that one is put on before; all are
-- open, and the numbers are those of descriptors.
abbrev pub AreApart : (ℕ → Option ℕ) → ℕ → List ℕ → List (ℕ × ℕ) → Type 0
AreApart file limit used [] = Unit
AreApart file limit used ((new_fd, cur_fd) ∷ rest) =
    (has cur_fd (new_fd ∷ used) ≡ false)
    × (file cur_fd ≢ none)
    × (new_fd < limit)
    × AreApart file limit (new_fd ∷ used) rest

abbrev pub laid : (ℕ → Option ℕ) → Option ℕ → Option ℕ → Option ℕ
laid f none d = d
laid f (some s) d = f s

abbrev pub cleared : Option ℕ → Bool → Bool
cleared none d = d
cleared (some s) d = false

-- The duplications in order, from a history on.
abbrev pub dup2s : List (ℕ × ℕ) → History → History
dup2s [] h = h
dup2s ((new_fd, cur_fd) ∷ rest) h = dup2s rest (dup2 cur_fd new_fd ∷ h)

pub dup2s_lem : (pairs : List (ℕ × ℕ)) (h : History) → dup2_calls pairs ++ h ≡ dup2s pairs h
dup2s_lem [] h = refl
dup2s_lem ((new_fd, cur_fd) ∷ rest) h =
    append_assoc (dup2_calls rest) (dup2 cur_fd new_fd ∷ []) h
    ∙ dup2s_lem rest (dup2 cur_fd new_fd ∷ h)

module _ {env : Env} {limit : ℕ} {file : History → ℕ → Option ℕ} {cloexec : History → ℕ → Bool}
    (t : Table env limit file cloexec) where
  or_false : (a b : Bool) → (a || b) ≡ false → (a ≡ false) × (b ≡ false)
  or_false false b e = (refl, e)
  or_false true b e = cc

  -- One duplication before the others, at one number.
  laid_step :
      (f : ℕ → Option ℕ) (r : Option ℕ) (hit : Bool) (cur_fd : ℕ) (new old : Option ℕ)
      → new ≡ (if hit then f cur_fd else old)
      → laid f r new ≡ laid f (later r (if hit then some cur_fd else none)) old
  laid_step f (some s) hit cur_fd new old e = refl
  laid_step f none true cur_fd new old e = e
  laid_step f none false cur_fd new old e = e

  cleared_step :
      (r : Option ℕ) (hit : Bool) (cur_fd : ℕ) (new old : Bool)
      → new ≡ (if hit && true then false else old)
      → cleared r new ≡ cleared (later r (if hit then some cur_fd else none)) old
  cleared_step (some s) hit cur_fd new old e = refl
  cleared_step none true cur_fd new old e = e
  cleared_step none false cur_fd new old e = e

  pub duplicated_lem :
      (pairs : List (ℕ × ℕ)) (used : List ℕ) (h : History) (f : ℕ → Option ℕ) (n : ℕ)
      → AreApart f limit used pairs
      → ((m : ℕ) → has m used ≡ false → file h m ≡ f m)
      → (file (dup2s pairs h) n ≡ laid f (source pairs n) (file h n))
        × (cloexec (dup2s pairs h) n ≡ cleared (source pairs n) (cloexec h n))
  duplicated_lem [] used h f n apart same = (refl, refl)
  duplicated_lem ((new_fd, cur_fd) ∷ rest) used h f n (free, is_open, small, apart) same =
      let (moved, unused) = or_false (cur_fd == new_fd) (has cur_fd used) free in
      let kept = same cur_fd unused in
      let step : (m : ℕ)
          → (file (dup2 cur_fd new_fd ∷ h) m ≡ (if m == new_fd then file h cur_fd else file h m))
            × (cloexec (dup2 cur_fd new_fd ∷ h) m
                ≡ (if (m == new_fd) && not (cur_fd == new_fd) then false else cloexec h m)) =
        λ m. t.duplicates h cur_fd new_fd m (λ q. is_open (sym kept ∙ q)) small in
      let same' : (m : ℕ) → has m (new_fd ∷ used) ≡ false → file (dup2 cur_fd new_fd ∷ h) m ≡ f m =
        λ m e.
          let (away, rest_free) = or_false (m == new_fd) (has m used) e in
          (step m).0 ∙ rw away (same m rest_free) in
      let (a, b) = duplicated_lem rest (new_fd ∷ used) (dup2 cur_fd new_fd ∷ h) f n apart same' in
      (
        a
            ∙ laid_step f (source rest n) (n == new_fd) cur_fd _ (file h n)
                (rw (sym kept) (step n).0),
        b
            ∙ cleared_step (source rest n) (n == new_fd) cur_fd _ (cloexec h n)
                ((step n).1 ∙ rw moved refl),
      )
