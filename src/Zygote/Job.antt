-- ===== src/Zygote/Job.antt =====
-- What the process of a job has done by the time its program runs: `do_exec` of
-- src/linux/zygote.rs from its first call on.
use mathlib.Core.List.{append_assoc}
use minion.Jail.{Seccomp}
use minion.Base.{
  ℕ, ◌/◌, ◌==◌, ◌≡◌, refl, Bool, true, false, none, inl, inr, List, [], ◌∷◌, ◌++◌, Text, length,
  ltb, Bool-cases, Option-cases, arith,
}
use minion.Os.{Env, History, replaced, attempt, sys, ◌>>=◌}
use minion.Os.Calls.{
  Call, dup, dup2, getpid, list_fds, set_cloexec, chdir, setgid, setuid, no_new_privs,
  seccomp_filter, execvpe,
}
use minion.Os.Traces.{
  Required, Replaces, Ends, Ends-exit, Ends-panic, Yields-of, Replaces-bind, Yields-then,
  Replaces-then, Yields-pure, Yields-sys, Yields-sys_numbers, Yields-ignore, Yields-ignore_number,
  Yields-unwrap, Yields-attempt,
}
use minion.Zygote.Exec.{
  DoExecArg, sandbox_internal_uid, err_exit, has_nul, c_string, duplicate_string_list, cloexec_all,
  or_exit, become_internal_user, inherit, enable, exec_failed, launch, do_exec,
}
use minion.Zygote.Launch.{dup2_calls, launched, run_program, run_program-replaced}
use minion.Zygote.Joins.{must_succeed, joined, Does, Yields-join}

abbrev pub marked : List ℕ → History → History
marked [] h = h
marked (fd ∷ rest) h = marked rest (set_cloexec fd ∷ h)

abbrev pub as_user : Bool → History → History
as_user true h = setuid sandbox_internal_uid ∷ setgid sandbox_internal_uid ∷ h
as_user false h = h

abbrev pub prepared : DoExecArg → Env → History → History
prepared arg env h =
    let group = joined arg.enter_handle env (dup 2 ∷ h) in
    as_user arg.setuid (chdir arg.pwd ∷ marked (env.numbers group list_fds) (list_fds ∷ group))

module _ (env : Env) where
  module _ (E : Type 0) where
    Yields-c_string : (s : Text) (h : History) → Does env (c_string {E = E} s) h h
    unfolding c_string
    Yields-c_string s h = elim (Bool-cases (has_nul s)) [
      | inl bad ↦ record { run = unfold ◌>>=◌ in rw bad tt }
      | inr fine ↦ Yields-of must_succeed env refl (unfold ◌>>=◌ in rw fine)
    ]

    Yields-duplicate_string_list :
        (l : List Text) (h : History) → Does env (duplicate_string_list {E = E} l) h h
    unfolding duplicate_string_list
    Yields-duplicate_string_list [] h = Yields-pure must_succeed env tt h
    Yields-duplicate_string_list (s ∷ rest) h =
        Yields-then must_succeed env (Yields-c_string s h) (Yields-duplicate_string_list rest h)

    Yields-cloexec_all :
        (l : List ℕ) (h : History) → Does env (cloexec_all {E = E} l) h (marked l h)
    unfolding cloexec_all
    Yields-cloexec_all [] h = Yields-pure must_succeed env tt h
    Yields-cloexec_all (fd ∷ rest) h =
        Yields-then must_succeed env
          (Yields-unwrap must_succeed env E _ _ tt (Yields-sys must_succeed env (set_cloexec fd) h))
          (Yields-cloexec_all rest (set_cloexec fd ∷ h))

    Ends-err_exit : (h : History) → Ends must_succeed env (err_exit {E = E} {A = Unit {0}}) h
    unfolding err_exit
    Ends-err_exit h = elim (Bool-cases (env.number h getpid == 1)) [
      | inl first ↦
          Ends-exit must_succeed env {h' = getpid ∷ h} {code = 1} (unfold ◌>>=◌ in rw first)
      | inr late ↦ Ends-panic must_succeed env {h' = getpid ∷ h} (unfold ◌>>=◌ in rw late)
    ]

    Yields-or_exit :
        (c : Call) (h : History) → Does env (attempt (sys c) >>= or_exit {E = E}) h (c ∷ h)
    unfolding or_exit
    Yields-or_exit c h =
        Yields-attempt must_succeed env or_exit _ _ _ tt tt (λ x g. Ends-err_exit g)
          (Yields-sys must_succeed env c h) (Yields-pure must_succeed env tt _)

    Yields-become_internal_user :
        (wanted : Bool) (h : History)
        → Does env (become_internal_user {E = E} wanted) h (as_user wanted h)
    unfolding become_internal_user
    Yields-become_internal_user true h =
        Yields-then must_succeed env (Yields-or_exit (setgid sandbox_internal_uid) h)
          (Yields-or_exit (setuid sandbox_internal_uid) _)
    Yields-become_internal_user false h = Yields-pure must_succeed env tt h

    Yields-inherit :
        (extra : List (ℕ × ℕ)) (h : History)
        → Does env (inherit {E = E} extra) h (dup2_calls extra ++ h)
    unfolding inherit
    Yields-inherit [] h = Yields-pure must_succeed env tt h
    Yields-inherit ((new_fd, cur_fd) ∷ rest) h =
        rw (append_assoc (dup2_calls rest) (dup2 cur_fd new_fd ∷ []) h) (
          Yields-then must_succeed env (Yields-ignore must_succeed env (dup2 cur_fd new_fd) h refl)
            (Yields-inherit rest (dup2 cur_fd new_fd ∷ h)))

    Yields-enable :
        (s : Seccomp) (h : History)
        → Does env
            (enable {E = E} s)
            h
            (seccomp_filter (length s.filter / 8) s.filter ∷ no_new_privs ∷ h)
    unfolding enable
    Yields-enable s h =
        Yields-then must_succeed env
          (Yields-unwrap must_succeed env E _ _ tt (Yields-sys must_succeed env no_new_privs h))
          (elim (Bool-cases (ltb (length s.filter / 8) 65536)) [
            | inl fits ↦
                rw fits (Yields-unwrap must_succeed env E _ _ tt (Yields-sys must_succeed env _ _))
            | inr long ↦ rw long (record { run = unfold ◌>>=◌ in tt })
          ])

  module _ (E : Type 0) (arg : DoExecArg) where
    run_program-status :
        (h : History)
        → (run_program {E = E} arg env env h).0 ≡ replaced
        → env.status h (execvpe arg.path (arg.path ∷ arg.arguments) arg.environment) ≡ none
    unfolding exec_failed err_exit ◌>>=◌
    run_program-status h e =
        elim (Option-cases
          (env.status h (execvpe arg.path (arg.path ∷ arg.arguments) arg.environment))) [
            | inl s ↦ s
            | inr (errno, s) ↦ ground arith
          ]

    Replaces-run_program :
        (h : History)
        → Replaces must_succeed env
            (run_program {E = E} arg env)
            h
            (execvpe arg.path (arg.path ∷ arg.arguments) arg.environment ∷ h)
    Replaces-run_program h = record {
      run = λ e. (run_program-replaced arg env h e, λ k. ((λ _. run_program-status h e), k));
    }

    Replaces-launch :
        (h : History) → Replaces must_succeed env (launch {E = E} arg) h (launched arg h)
    unfolding launch
    Replaces-launch h =
        Replaces-then must_succeed env
          (Yields-ignore must_succeed env (dup2 arg.stdio.stdin 0) h refl)
          (Replaces-then must_succeed env
            (Yields-ignore must_succeed env (dup2 arg.stdio.stdout 1) _ refl)
            (Replaces-then must_succeed env
              (Yields-ignore must_succeed env (dup2 arg.stdio.stderr 2) _ refl)
              (Replaces-then must_succeed env (Yields-inherit E arg.extra_fds _) (
                Replaces-then must_succeed env (Yields-enable E arg.seccomp _)
                  (Replaces-run_program _)))))

    Replaces-do_exec :
        (h : History)
        → Replaces must_succeed env (do_exec {E = E} arg) h (launched arg (prepared arg env h))
    unfolding do_exec
    Replaces-do_exec h =
        Replaces-then must_succeed env (Yields-ignore_number must_succeed env (dup 2) h refl) (
          Replaces-then must_succeed env (Yields-c_string E arg.path _) (
            Replaces-then must_succeed env
              (Yields-duplicate_string_list E (arg.path ∷ arg.arguments) _)
              (Replaces-then must_succeed env (Yields-duplicate_string_list E arg.environment _) (
                Replaces-then must_succeed env (Yields-join env E arg.enter_handle _) (
                  Replaces-bind must_succeed env _
                    (Yields-unwrap must_succeed env E _ _ _
                      (Yields-sys_numbers must_succeed env list_fds _))
                    (Replaces-then must_succeed env (Yields-cloexec_all E _ _) (
                      Replaces-then must_succeed env (Yields-c_string E arg.pwd _) (
                        Replaces-then must_succeed env
                          (Yields-ignore must_succeed env (chdir arg.pwd) _ refl)
                          (Replaces-then must_succeed env
                            (Yields-become_internal_user E arg.setuid _)
                            (Replaces-launch _))))))))))

-- If the program of a job runs, then its process did the following and nothing else, in this order:
-- it saved the standard error, joined the resource group, marked every descriptor that it had to be
-- closed, changed the directory, became the internal user if that was asked for, put the job's
-- descriptors on their numbers, gave up new privileges, installed the filter and ran the program.
-- Each of these calls succeeded, except that the results of the duplications, of the change of
-- directory and of the closing of the group's descriptors are not read.
pub do_exec-replaced :
    {E : Type 0} (arg : DoExecArg) (env : Env) (h : History)
    → Required must_succeed env h
    → (do_exec {E = E} arg env h).0 ≡ replaced
    → ((do_exec {E = E} arg env h).1 ≡ launched arg (prepared arg env h))
      × Required must_succeed env (launched arg (prepared arg env h))
do_exec-replaced {E} arg env h before e =
    let (history, kept) = (Replaces-do_exec env E arg h).run e in (history, kept before)
