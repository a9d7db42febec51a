-- ===== src/Zygote/Inherited.antt =====
-- Which descriptors the program of a job in src/linux/zygote.rs finds open.
mod Tests
use mathlib.Core.List.{append_assoc}
use minion.Base.{
  ℕ, ◌≡◌, ◌≢◌, ◌<◌, refl, sym, subst, ap, ◌∙◌, ◌==◌, ◌&&◌, ◌||◌, Bool, true, false, not, Option,
  none, some, inl, inr, ◌⊎◌, List, [], ◌∷◌, ◌++◌, Bool-cases, Option-cases, if◌then◌else◌, arith,
}
use minion.Os.{Env, History, replaced}
use minion.Os.Calls.{
  Call, dup, execvpe, set_cloexec, dup2, list_fds, chdir, setgid, setuid, no_new_privs,
  seccomp_filter,
}
use minion.Os.Traces.{Required}
use minion.Zygote.Exec.{DoExecArg, sandbox_internal_uid, do_exec}
use minion.Zygote.Joins.{must_succeed, joined}
use minion.Zygote.Job.{marked, as_user, prepared, do_exec-replaced}
use minion.Zygote.Launch.{dup2_calls, filter_call, launched}
use minion.Zygote.Table.{
  Table, has, is_unrelated, source, AreApart, laid, cleared, dup2s, dup2s_lem, duplicated_lem,
}

-- What a program that is run now finds at a descriptor.
abbrev pub inherited : (History → ℕ → Option ℕ) → (History → ℕ → Bool) → History → ℕ → Option ℕ
inherited file cloexec h n = if cloexec h n then none else file h n

Required-marked :
    (env : Env) (fds : List ℕ) (h : History)
    → Required must_succeed env (marked fds h)
    → Required must_succeed env h
Required-marked env [] h done = done
Required-marked env (fd ∷ rest) h done = (Required-marked env rest (set_cloexec fd ∷ h) done).1

Required-as_user :
    (env : Env) (wanted : Bool) (h : History)
    → Required must_succeed env (as_user wanted h)
    → Required must_succeed env h
Required-as_user env true h done = done.1.1
Required-as_user env false h done = done

Required-dup2s :
    (env : Env) (pairs : List (ℕ × ℕ)) (h : History)
    → Required must_succeed env (dup2s pairs h)
    → Required must_succeed env h
Required-dup2s env [] h done = done
Required-dup2s env ((new_fd, cur_fd) ∷ rest) h done =
    (Required-dup2s env rest (dup2 cur_fd new_fd ∷ h) done).1

module _ {env : Env} {limit : ℕ} {file : History → ℕ → Option ℕ} {cloexec : History → ℕ → Bool}
    (t : Table env limit file cloexec) where
  marked_lem :
      (fds : List ℕ) (h : History) (n : ℕ)
      → Required must_succeed env (marked fds h)
      → (file (marked fds h) n ≡ file h n) × (cloexec (marked fds h) n ≡ (has n fds || cloexec h n))
  marked_lem [] h n done = (refl, refl)
  marked_lem (fd ∷ rest) h n done =
      let (file_kept, flag) =
        t.marks h fd n ((Required-marked env rest (set_cloexec fd ∷ h) done).0 refl) in
      let (file_later, flag_later) = marked_lem rest (set_cloexec fd ∷ h) n done in
      (file_later ∙ file_kept, rw (flag_later, flag) (or_swap (has n rest) (n == fd) (cloexec h n)))
    where
      or_swap : (a b c : Bool) → (a || (b || c)) ≡ ((b || a) || c)
      or_swap true true c = refl
      or_swap true false c = refl
      or_swap false true c = refl
      or_swap false false c = refl

  as_user_lem :
      (wanted : Bool) (h : History) (n : ℕ)
      → (file (as_user wanted h) n ≡ file h n) × (cloexec (as_user wanted h) n ≡ cloexec h n)
  as_user_lem true h n =
      let (a, b) = t.keeps (setgid sandbox_internal_uid ∷ h) (setuid sandbox_internal_uid) n refl in
      let (c, d) = t.keeps h (setgid sandbox_internal_uid) n refl in (a ∙ c, b ∙ d)
  as_user_lem false h n = (refl, refl)

  -- When the job's descriptors are put on their numbers, every open descriptor has its flag set.
  prepared-IsMarked :
      (arg : DoExecArg) (h : History) (n : ℕ)
      → Required must_succeed env (prepared arg env h)
      → file (prepared arg env h) n ≢ none
      → cloexec (prepared arg env h) n ≡ true
  prepared-IsMarked arg h n done is_open =
      let group = joined arg.enter_handle env (dup 2 ∷ h) in
      let fds = env.numbers group list_fds in
      let closing = marked fds (list_fds ∷ group) in
      let below = (Required-as_user env arg.setuid (chdir arg.pwd ∷ closing) done).1 in
      let (a, b) = as_user_lem arg.setuid (chdir arg.pwd ∷ closing) n in
      let (c, d) = t.keeps closing (chdir arg.pwd) n refl in
      let (e, f) = marked_lem fds (list_fds ∷ group) n below in
      let listed =
        t.lists group n ((Required-marked env fds (list_fds ∷ group) below).0 refl)
          (λ q. is_open (a ∙ c ∙ e ∙ q)) in
      b ∙ d ∙ f ∙ rw listed refl

-- The numbers that a job asks for, and the descriptors that are put on them.
abbrev pub placed : DoExecArg → List (ℕ × ℕ)
placed arg = (0, arg.stdio.stdin) ∷ (1, arg.stdio.stdout) ∷ (2, arg.stdio.stderr) ∷ arg.extra_fds

-- The history when the program is run.
abbrev pub ready : DoExecArg → Env → History → History
ready arg env h =
    filter_call arg
    ∷ no_new_privs
    ∷ (dup2_calls arg.extra_fds
        ++ dup2 arg.stdio.stderr 2
          ∷ dup2 arg.stdio.stdout 1
          ∷ dup2 arg.stdio.stdin 0
          ∷ prepared arg env h)

seen :
    (r file_at before : Option ℕ) (flag flag_before : Bool) (f : ℕ → Option ℕ)
    → (before ≢ none → flag_before ≡ true)
    → file_at ≡ laid f r before
    → flag ≡ cleared r flag_before
    → (if flag then none else file_at) ≡ laid f r none
seen (some s) file_at before flag flag_before f closes e g = rw (e, g) refl
seen none file_at none flag true f closes e g = rw (e, g) refl
seen none file_at none flag false f closes e g = rw (e, g) refl
seen none file_at (some x) flag flag_before f closes e g = rw (g, closes (λ q. cc)) refl

module _ {env : Env} {limit : ℕ} {file : History → ℕ → Option ℕ} {cloexec : History → ℕ → Bool}
    (t : Table env limit file cloexec) where
  inherited_lem :
      (arg : DoExecArg) (h : History) (n : ℕ)
      → Required must_succeed env (launched arg (prepared arg env h))
      → AreApart (file (prepared arg env h)) limit [] (placed arg)
      → inherited file cloexec (ready arg env h) n
        ≡ laid (file (prepared arg env h)) (source (placed arg) n) none
  inherited_lem arg h n done apart =
      let base = prepared arg env h in
      let swap =
        dup2s_lem arg.extra_fds
          (dup2 arg.stdio.stderr 2 ∷ dup2 arg.stdio.stdout 1 ∷ dup2 arg.stdio.stdin 0 ∷ base) in
      let required : Required must_succeed env (dup2s (placed arg) base) =
        subst (Required must_succeed env) swap done.1.1.1 in
      let (a, b) = duplicated_lem t (placed arg) [] base (file base) n apart (λ m e. refl) in
      let (c, d) = t.keeps (no_new_privs ∷ dup2s (placed arg) base) (filter_call arg) n refl in
      let (e, f) = t.keeps (dup2s (placed arg) base) no_new_privs n refl in
      rw swap (
        seen (source (placed arg) n) _ (file base n) _ (cloexec base n) (file base)
          (prepared-IsMarked t arg h n (Required-dup2s env (placed arg) base required)) (c ∙ e ∙ a)
          (d ∙ f ∙ b))

-- The program of a job finds open exactly its three streams and the extra descriptors, each on the
-- number that was asked for, and no other descriptor of the zygote; if a number was asked for more
-- than once, the last one counts. That holds if every one of these descriptors is open when they are
-- put on their numbers, and none stands on a number that it or an earlier one is put on.
pub do_exec-inherited :
    {E : Type 0} {env : Env} {limit : ℕ} {file : History → ℕ → Option ℕ}
    {cloexec : History → ℕ → Bool} (t : Table env limit file cloexec) (arg : DoExecArg)
    (h : History)
    → Required must_succeed env h
    → (do_exec {E = E} arg env h).0 ≡ replaced
    → AreApart (file (prepared arg env h)) limit [] (placed arg)
    → ((do_exec {E = E} arg env h).1
        ≡ execvpe arg.path (arg.path ∷ arg.arguments) arg.environment ∷ ready arg env h)
      × ((n : ℕ)
          → inherited file cloexec (ready arg env h) n
            ≡ laid (file (prepared arg env h)) (source (placed arg) n) none)
do_exec-inherited {env} t arg h before e apart =
    let (history, done) = do_exec-replaced arg env h before e in
    (history, λ n. inherited_lem t arg h n done apart)
