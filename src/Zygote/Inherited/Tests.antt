-- ===== src/Zygote/Inherited/Tests.antt =====
-- The descriptors of a job of src/linux/zygote.rs in a kernel with eight open descriptors.
use minion.Base.{
  ℕ, ◌+◌, ◌≡◌, ◌≢◌, refl, ◌==◌, ◌&&◌, ◌||◌, Bool, true, false, not, Option, none, some, inl, inr,
  List, [], ◌∷◌, bytes, ltb, Bool-cases, if◌then◌else◌, arith,
}
use minion.Os.{Env, History}
use minion.Os.Calls.{Call, execvpe, set_cloexec, dup2}
use minion.Os.Samples.{quiet}
use minion.Limits.Cgroup
use minion.Limits.Driver.{cgroup_enter}
use minion.Zygote.Exec.{DoExecArg, do_exec}
use minion.Zygote.Table.{Table, has, is_unrelated, AreApart, laid, source}
use minion.Zygote.Inherited.{inherited, ready, placed, do_exec-inherited}
use minion.Zygote.Job.{prepared}
use minion.Os.{◌>>◌}

abbrev moves : Call → Option (ℕ × ℕ)
moves (dup2 old new) = some (old, new)
moves _ = none

abbrev flags : Call → Option ℕ
flags (set_cloexec fd) = some fd
flags _ = none

abbrev relevant : {A : Type 0} → Call → Option A → Option A
relevant c effect = if is_unrelated c then none else effect

abbrev after_move : Option (ℕ × ℕ) → (ℕ → Option ℕ) → ℕ → Option ℕ
after_move none before n = before n
after_move (some (old, new)) before n = if n == new then before old else before n

-- Eight descriptors are open at first, each to a file of its own.
abbrev files : History → ℕ → Option ℕ
files [] n = if ltb n 8 then some (n + 100) else none
files (c ∷ h) n = after_move (relevant c (moves c)) (files h) n

abbrev after_flag : Option ℕ → Bool → ℕ → Bool
after_flag none before n = before
after_flag (some fd) before n = (n == fd) || before

abbrev unflagged : Option (ℕ × ℕ) → Bool → ℕ → Bool
unflagged none before n = before
unflagged (some (old, new)) before n = if (n == new) && not (old == new) then false else before

abbrev closing : History → ℕ → Bool
closing [] n = false
closing (c ∷ h) n =
    unflagged (relevant c (moves c)) (after_flag (relevant c (flags c)) (closing h n) n) n

abbrev also : Option (ℕ × ℕ) → List ℕ → List ℕ
also none before = before
also (some (old, new)) before = new ∷ before

abbrev listing : History → List ℕ
listing [] = 0 ∷ 1 ∷ 2 ∷ 3 ∷ 4 ∷ 5 ∷ 6 ∷ 7 ∷ []
listing (c ∷ h) = also (relevant c (moves c)) (listing h)

abbrev kernel : Env
kernel = record quiet { numbers = λ h c. listing h }

listed_after :
    (m : Option (ℕ × ℕ)) (before : ℕ → Option ℕ) (l : List ℕ) (n : ℕ)
    → (before n ≢ none → has n l ≡ true)
    → after_move m before n ≢ none
    → has n (also m l) ≡ true
listed_after none before l n below is_open = below is_open
listed_after (some (old, new)) before l n below is_open = elim (Bool-cases (n == new)) [
  | inl e ↦ rw e refl
  | inr e ↦ rw e (below (rw e at is_open))
]

listed : (h : History) (n : ℕ) → files h n ≢ none → has n (listing h) ≡ true
listed [] n is_open = ground arith
listed (c ∷ h) n is_open =
    listed_after (relevant c (moves c)) (files h) (listing h) n (listed h n) is_open

table : Table kernel 1024 files closing
table = record {
  marks = λ h fd n e. (refl, refl);
  duplicates = λ h old new n e l. (refl, refl);
  lists = λ h n e is_open. listed h n is_open;
  keeps = λ h c n e. rw e (refl, refl);
}

abbrev job : DoExecArg
job = record {
  path = bytes "/bin/x";
  arguments = [];
  environment = [];
  stdio = record { stdin = 4; stdout = 5; stderr = 6 };
  extra_fds = (9, 7) ∷ [];
  pwd = bytes "/";
  enter_handle = cgroup_enter (Cgroup.v2 3);
  setuid = true;
  seccomp = record { filter = [] };
}

opened : (o : Option ℕ) (a : ℕ) → o ≡ some a → o ≢ none
opened o a e q = cc

sources_apart : AreApart (files (prepared job kernel [])) 1024 [] (placed job)
unfolding Cgroup.fds
sources_apart = (
  refl,
  opened _ 104 refl,
  omega arith,
  (
    refl,
    opened _ 105 refl,
    omega arith,
    (refl, opened _ 106 refl, omega arith, (refl, opened _ 107 refl, omega arith, tt)),
  ),
)

do_exec-inherited_example :
    ((do_exec {E = ℕ} job kernel []).1 ≡ execvpe job.path (job.path ∷ []) [] ∷ ready job kernel [])
    × ((n : ℕ)
        → inherited files closing (ready job kernel []) n
          ≡ laid (files (prepared job kernel [])) (source (placed job) n) none)
unfolding do_exec ◌>>◌
do_exec-inherited_example = do_exec-inherited {E = ℕ} table job [] tt refl sources_apart

-- The file behind descriptor 7 is found at 9, and the zygote's descriptor 3 is not found.
extra_is_moved : inherited files closing (ready job kernel []) 9 ≡ some 107
unfolding Cgroup.fds
extra_is_moved = refl

others_are_closed : inherited files closing (ready job kernel []) 3 ≡ none
unfolding Cgroup.fds
others_are_closed = refl
