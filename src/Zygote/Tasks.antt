-- ===== src/Zygote/Tasks.antt =====
-- The table of tasks of src/linux/zygote/main_loop.rs.
use mathlib.Core.List.{reverse, reverse_perm, Perm}
use mathlib.Core.List.Perm as Permutation
use minion.Base.{
  ℕ, ◌≡◌, false, Option, none, some, List, [], ◌∷◌, All, ◌==◌, ==_iff, Bool-cases, inl, inr,
}
use minion.Zygote.Loop.{Task, swap_remove, last_first, last_to_front}

-- What taking a task out means: some task has the process and the others are left, each as often as
-- before, in some order; or no task has it.
abbrev pub Removed : ℕ → List Task → Option (Task × List Task) → Type 0
Removed pid ts none = All (λ t. (t.pid == pid) ≡ false) ts
Removed pid ts (some (t, left)) = (t.pid ≡ pid) × Perm (t ∷ left) ts

last_first-Perm : (ys : List Task) → Perm (last_first ys) ys
last_first-Perm [] = Permutation.refl []
last_first-Perm (t ∷ rest) = Permutation.cons t (reverse_perm rest)

last_to_front-Perm : (xs : List Task) → Perm (last_to_front xs) xs
last_to_front-Perm xs = Permutation.trans (last_first-Perm (reverse xs)) (reverse_perm xs)

kept :
    (pid : ℕ) (t : Task) (ts : List Task) (r : Option (Task × List Task))
    → (t.pid == pid) ≡ false
    → Removed pid ts r
    → Removed pid (t ∷ ts) (elim r [ none ↦ none | some (u, left) ↦ some (u, t ∷ left) ])
kept pid t ts none other all = (other, all)
kept pid t ts (some (u, left)) other (same, perm) =
    (same, Permutation.trans (Permutation.swap t u left) (Permutation.cons t perm))

-- A request for an exit code takes exactly one task out of the table, one of the process asked for,
-- or finds that none is.
pub swap_remove_lem : (pid : ℕ) (ts : List Task) → Removed pid ts (swap_remove pid ts)
unfolding swap_remove
swap_remove_lem pid [] = tt
swap_remove_lem pid (t ∷ rest) = elim (Bool-cases (t.pid == pid)) [
  | inl e ↦ rw e ((==_iff t.pid pid).0 e, Permutation.cons t (last_to_front-Perm rest))
  | inr e ↦ rw e (kept pid t rest (swap_remove pid rest) e (swap_remove_lem pid rest))
]
