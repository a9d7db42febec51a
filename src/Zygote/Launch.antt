-- ===== src/Zygote/Launch.antt =====
-- The last steps of a job's process in src/linux/zygote.rs: what was done before the program runs.
use mathlib.Core.List.{append_assoc}
use minion.Base.{
  ℕ, ◌/◌, ◌≡◌, refl, sym, ap, ◌∙◌, none, List, [], ◌∷◌, ◌++◌, length, ltb, true, Bool-cases,
  Option-cases, inl, inr, arith,
}
use minion.Os.{Env, History, Outcome, replaced, Sys, ignore, attempt, sys, sys_replace, ◌>>=◌, ◌>>◌}
use minion.Os.Calls.{Call, dup2, no_new_privs, seccomp_filter, execvpe}
use minion.Zygote.Exec.{DoExecArg, inherit, enable, err_exit, exec_failed, launch}
use minion.Os.Laws.{>>-ok}

-- The calls of `inherit`, the newest first.
abbrev pub dup2_calls : List (ℕ × ℕ) → List Call
dup2_calls [] = []
dup2_calls ((new_fd, cur_fd) ∷ rest) = dup2_calls rest ++ dup2 cur_fd new_fd ∷ []

abbrev pub filter_call : DoExecArg → Call
filter_call arg = seccomp_filter (length arg.seccomp.filter / 8) arg.seccomp.filter

-- The history of a program run by `launch`.
abbrev pub launched : DoExecArg → History → History
launched arg h =
    execvpe arg.path (arg.path ∷ arg.arguments) arg.environment
    ∷ filter_call arg
    ∷ no_new_privs
    ∷ (dup2_calls arg.extra_fds
        ++ dup2 arg.stdio.stderr 2 ∷ dup2 arg.stdio.stdout 1 ∷ dup2 arg.stdio.stdin 0 ∷ h)

ignored :
    {E : Type 0} (c : Call) (env : Env) (h : History)
    → ignore {F = E} (sys c) env h ≡ (Outcome.ok tt, c ∷ h)
unfolding ◌>>=◌
ignored c env h = elim (Option-cases (env.status h c)) [ inl e ↦ rw e | inr (errno, e) ↦ rw e ]

inherit_lem :
    {E : Type 0} (extra : List (ℕ × ℕ)) (env : Env) (h : History)
    → inherit {E = E} extra env h ≡ (Outcome.ok tt, dup2_calls extra ++ h)
unfolding inherit
inherit_lem [] env h = unfold ◌>>=◌ in refl
inherit_lem ((new_fd, cur_fd) ∷ rest) env h =
    >>-ok _ _ env h (ignored (dup2 cur_fd new_fd) env h)
    ∙ inherit_lem rest env (dup2 cur_fd new_fd ∷ h)
    ∙ ap (λ l. (Outcome.ok tt, l))
        (sym (append_assoc (dup2_calls rest) (dup2 cur_fd new_fd ∷ []) h))

module _ {E : Type 0} (arg : DoExecArg) (env : Env) where
  abbrev pub run_program : Sys E ⊥
  run_program = do
    result ← attempt (sys_replace (execvpe arg.path (arg.path ∷ arg.arguments) arg.environment))
    exec_failed result

  pub run_program-replaced :
      (h : History)
      → (run_program env h).0 ≡ replaced
      → (run_program env h).1 ≡ execvpe arg.path (arg.path ∷ arg.arguments) arg.environment ∷ h
  unfolding exec_failed err_exit ◌>>=◌
  run_program-replaced h e =
      elim (Option-cases
        (env.status h (execvpe arg.path (arg.path ∷ arg.arguments) arg.environment))) [
          | inl s ↦ ground arith
          | inr (errno, s) ↦ ground arith
        ]

  enabled :
      (h : History)
      → env.status h no_new_privs ≡ none
      → ltb (length arg.seccomp.filter / 8) 65536 ≡ true
      → env.status (no_new_privs ∷ h) (filter_call arg) ≡ none
      → enable {E = E} arg.seccomp env h ≡ (Outcome.ok tt, filter_call arg ∷ no_new_privs ∷ h)
  unfolding enable ◌>>◌
  enabled h s short q = rw (s, ◌>>=◌, short, q)

  enabled-replaced :
      (h : History)
      → ((enable arg.seccomp >> run_program) env h).0 ≡ replaced
      → ((enable arg.seccomp >> run_program) env h).1
        ≡ execvpe arg.path (arg.path ∷ arg.arguments) arg.environment
          ∷ filter_call arg
          ∷ no_new_privs
          ∷ h
  unfolding enable ◌>>◌
  enabled-replaced h e = elim (Option-cases (env.status h no_new_privs)) [
    | inl s ↦ elim (Bool-cases (ltb (length arg.seccomp.filter / 8) 65536)) [
      | inl short ↦ elim (Option-cases (env.status (no_new_privs ∷ h) (filter_call arg))) [
        | inl q ↦
            let step = >>-ok (enable arg.seccomp) run_program env h (enabled h s short q) in
            ap (λ r. r.1) step
            ∙ run_program-replaced (filter_call arg ∷ no_new_privs ∷ h)
                (ap (λ r. r.0) (sym step) ∙ e)
        | inr (errno, q) ↦ ground arith
      ]
      | inr long ↦ ground arith
    ]
    | inr (errno, s) ↦ ground arith
  ]

-- If the program runs, then the calls before it were those that put its descriptors on their
-- numbers (their results are not read), then that which forbids new privileges, then that which
-- installs the filter; nothing else was done in between.
pub launch-replaced :
    {E : Type 0} (arg : DoExecArg) (env : Env) (h : History)
    → (launch {E = E} arg env h).0 ≡ replaced
    → (launch {E = E} arg env h).1 ≡ launched arg h
unfolding launch
launch-replaced arg env h e =
    let prepared =
      >>-ok _ _ env h (ignored (dup2 arg.stdio.stdin 0) env h)
      ∙ >>-ok _ _ env (dup2 arg.stdio.stdin 0 ∷ h) (ignored (dup2 arg.stdio.stdout 1) env _)
      ∙ >>-ok _ _ env _ (ignored (dup2 arg.stdio.stderr 2) env _)
      ∙ >>-ok _ _ env _ (inherit_lem arg.extra_fds env _) in
    ap (λ r. r.1) prepared ∙ enabled-replaced arg env _ (ap (λ r. r.0) (sym prepared) ∙ e)
