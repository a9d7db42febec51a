-- ===== src/Cli/Output.antt =====
-- What a run of minion-cli/src/main.rs asks of the backend and prints.
use minion.Base.{
  ℕ, ◌≡◌, refl, ◌∙◌, Bool, not, ◌&&◌, true, false, Option, none, some, inl, inr, [], ◌∷◌, ◌++◌,
  Text, bytes, Option-cases, Bool-cases,
}
use minion.Os.{Env, History, Result, success, failure, ok, exit, ◌>>=◌}
use minion.Os.Calls.{dup, write}
use minion.Os.Laws.{>>=-ok, >>-ok}
use minion.Options.{ChildProcessOptions, ExitCode}
use minion.Report
use minion.Report.{CheckResult, has_errors, fmt}
use minion.Erased.{Op, ErasedBackend, DynSandbox}
use minion.Cli.{ExecOpt, sandbox_options, process_options}
use minion.Cli.Main.{
  print, note, expected, duplicate, duplicate_or_minus_one, checked, system_check, finish, run,
  start, main,
}

-- The history after a line was printed, if it was.
abbrev pub told : ℕ → Bool → Text → History → History
told fd true line h = write fd (line ++ 10 ∷ []) ∷ h
told fd false line h = h

abbrev pub answered : Option ℕ → ℕ → Result ℕ ℕ
answered none n = success n
answered (some errno) n = failure errno

abbrev pub duplicated : Env → History → ℕ → ℕ
duplicated env h fd =
    duplicate_or_minus_one (answered (env.status h (dup fd)) (env.number h (dup fd)))

-- The options for the process, with the duplicates made after `h`.
abbrev pub requested : ExecOpt → Env → History → ChildProcessOptions
requested o env h =
    process_options o (duplicated env h 0) (duplicated env (dup 0 ∷ h) 1)
      (duplicated env (dup 1 ∷ dup 0 ∷ h) 2)

abbrev pub cpu_note : Text
cpu_note = bytes "Note: CPU time limit was exceeded"

abbrev pub real_note : Text
real_note = bytes "Note: wall-clock time limit was exceeded"

abbrev pub exit_line : (ExitCode → Text) → ExitCode → Text
exit_line shown code = bytes "---> Child process exited with code " ++ shown code ++ bytes " <---"

-- A run in which the backend does what it is asked for: the objects that it makes, its worlds, the
-- exit code, and whether either limit is exceeded.
pub record Served {F W : Type 0} (dumped : ChildProcessOptions → Text) (shown : ExitCode → Text)
    (b : ErasedBackend F W) (o : ExecOpt) (env : Env) (w : W) (h : History) : Type 0 where
  pub sandbox : DynSandbox
  pub cp : ℕ
  pub future : ℕ
  pub code : ExitCode
  pub cpu : Bool
  pub real : Bool
  pub created : W × History
  pub spawned : W × History
  pub waiting : W × History
  pub exited : W × History
  pub cpu_checked : W × History
  pub last : W × History
  pub creates :
      b.new_sandbox (sandbox_options o) w env h ≡ (ok (success sandbox, created.0), created.1)
  pub spawns :
      b.spawn (requested o env created.1) sandbox created.0 env (
        told 1 o.dump_minion_params
          (dumped (requested o env created.1))
          (dup 2 ∷ dup 1 ∷ dup 0 ∷ created.1))
      ≡ (ok (success cp, spawned.0), spawned.1)
  pub waits :
      b.wait_for_exit cp spawned.0 env spawned.1 ≡ (ok (success future, waiting.0), waiting.1)
  pub ends : b.ready future waiting.0 env waiting.1 ≡ (ok (success code, exited.0), exited.1)
  pub checks_cpu :
      b.check_cpu_tle sandbox exited.0 env (told 1 true (exit_line shown code) exited.1)
      ≡ (ok (success cpu, cpu_checked.0), cpu_checked.1)
  pub checks_real :
      b.check_real_tle sandbox cpu_checked.0 env (told 1 cpu cpu_note cpu_checked.1)
      ≡ (ok (success real, last.0), last.1)

duplicate_lem :
    (fd : ℕ) (env : Env) (h : History) → duplicate fd env h ≡ (ok (duplicated env h fd), dup fd ∷ h)
unfolding duplicate ◌>>=◌
duplicate_lem fd env h = elim (Option-cases (env.status h (dup fd))) [
  | inl e ↦ rw e
  | inr (errno, e) ↦ rw e
]

expected_lem :
    {A : Type 0} (F : Type 0) (a : A) (env : Env) (h : History)
    → expected {F = F} (success a) env h ≡ (ok a, h)
unfolding expected ◌>>=◌
expected_lem F a env h = refl

module _ (env : Env)
    (prints : (h : History) (fd : ℕ) (line : Text) → env.status h (write fd line) ≡ none) where
  print_lem :
      (fd : ℕ) (line : Text) (h : History) → print fd line env h ≡ (ok tt, told fd true line h)
  unfolding print ◌>>=◌
  print_lem fd line h = rw (prints h fd (line ++ 10 ∷ []))

  note_lem : (b : Bool) (line : Text) (h : History) → note b line env h ≡ (ok tt, told 1 b line h)
  unfolding note
  note_lem true line h = print_lem 1 line h
  note_lem false line h = unfold ◌>>=◌ in refl

  module _ {F W : Type 0} (dumped : ChildProcessOptions → Text) (shown : ExitCode → Text)
      (b : ErasedBackend F W) (o : ExecOpt) (w : W) (h : History)
      (s : Served dumped shown b o env w h) where
    finish_lem :
        finish dumped shown b s.sandbox s.cp s.spawned.0 env s.spawned.1
        ≡ (ok s.last.0, told 1 s.real real_note s.last.1)
    unfolding finish
    finish_lem =
        >>=-ok _ _ env _ s.waits
        ∙ >>=-ok _ _ env _ (expected_lem F s.future env _)
        ∙ >>=-ok _ _ env _ s.ends
        ∙ >>=-ok _ _ env _ (expected_lem F s.code env _)
        ∙ >>-ok _ _ env _ (print_lem 1 (exit_line shown s.code) _)
        ∙ >>=-ok _ _ env _ s.checks_cpu
        ∙ >>=-ok _ _ env _ (expected_lem F s.cpu env _)
        ∙ >>-ok _ _ env _ (note_lem s.cpu cpu_note _)
        ∙ >>=-ok _ _ env _ s.checks_real
        ∙ >>=-ok _ _ env _ (expected_lem F s.real env _)
        ∙ >>-ok _ _ env _ (note_lem s.real real_note _)
        ∙ unfold ◌>>=◌ in refl

    run_lem : run dumped shown b o w env h ≡ (ok s.last.0, told 1 s.real real_note s.last.1)
    unfolding run
    run_lem =
        >>=-ok _ _ env _ s.creates
        ∙ >>=-ok _ _ env _ (expected_lem F s.sandbox env _)
        ∙ >>=-ok _ _ env _ (duplicate_lem 0 env _)
        ∙ >>=-ok _ _ env _ (duplicate_lem 1 env _)
        ∙ >>=-ok _ _ env _ (duplicate_lem 2 env _)
        ∙ >>-ok _ _ env _ (note_lem o.dump_minion_params _ _)
        ∙ >>=-ok _ _ env _ s.spawns
        ∙ >>=-ok _ _ env _ (expected_lem F s.cp env _)
        ∙ finish_lem

  system_check_lem :
      (o : ExecOpt) (check : CheckResult → Option CheckResult) (res : CheckResult) (h : History)
      → check Report.new ≡ some res
      → system_check o check env h
        ≡ (ok tt, told 2 (not o.skip_system_check && has_errors res) (fmt res) h)
  unfolding system_check checked
  system_check_lem o check res h e = elim (Bool-cases o.skip_system_check) [
    | inl skipped ↦ rw skipped (unfold ◌>>=◌ in refl)
    | inr made ↦ rw (made, e) (reported o res h)
  ]
    where
      reported :
          (o : ExecOpt) (res : CheckResult) (h : History)
          → checked (some res) env h ≡ (ok tt, told 2 (has_errors res) (fmt res) h)
      reported o res h = elim (Bool-cases (has_errors res)) [
        | inl bad ↦ rw bad (print_lem 2 (fmt res) h)
        | inr fine ↦ rw fine (unfold ◌>>=◌ in refl)
      ]

-- If every line can be printed, the system check does not panic, and the backend comes up and does
-- what it is asked for, then `main` returns, having asked it for a sandbox with the options of the
-- command line, for the process of the command line on duplicates of its own three streams, and
-- for its exit code; it printed the exit code and then a note for each limit exactly if the sandbox
-- says that it is exceeded, whether or not the system check found errors, which are printed first.
pub main-Served :
    {F W : Type 0} (dumped_options : ExecOpt → Text) (dumped : ChildProcessOptions → Text)
    (shown : ExitCode → Text) (message : F → Text) (check : CheckResult → Option CheckResult)
    (res : CheckResult) (setup : Op F W (ErasedBackend F W)) (b : ErasedBackend F W) (o : ExecOpt)
    (env : Env) (w w' : W) (h h' : History)
    → ((g : History) (fd : ℕ) (line : Text) → env.status g (write fd line) ≡ none)
    → check Report.new ≡ some res
    → setup w env (
        told 2
          (not o.skip_system_check && has_errors res)
          (fmt res)
          (told 1 o.dump_argv (dumped_options o) h))
      ≡ (ok (success b, w'), h')
    → (s : Served dumped shown b o env w' h')
    → main dumped_options dumped shown message check setup o w env h
      ≡ (ok s.last.0, told 1 s.real real_note s.last.1)
unfolding main start
main-Served dumped_options dumped shown message check res setup b o env w w' h h' prints made up s =
    >>-ok _ _ env _ (note_lem env prints o.dump_argv (dumped_options o) h)
    ∙ >>-ok _ _ env _ (system_check_lem env prints o check res _ made)
    ∙ >>=-ok _ _ env _ up
    ∙ run_lem env prints dumped shown b o w' h' s

-- If the backend does not come up, its error is printed and the process exits with code 1; nothing
-- is asked of a backend.
pub main-exits :
    {F W : Type 0} (dumped_options : ExecOpt → Text) (dumped : ChildProcessOptions → Text)
    (shown : ExitCode → Text) (message : F → Text) (check : CheckResult → Option CheckResult)
    (res : CheckResult) (setup : Op F W (ErasedBackend F W)) (e : F) (o : ExecOpt) (env : Env)
    (w w' : W) (h h' : History)
    → ((g : History) (fd : ℕ) (line : Text) → env.status g (write fd line) ≡ none)
    → check Report.new ≡ some res
    → setup w env (
        told 2
          (not o.skip_system_check && has_errors res)
          (fmt res)
          (told 1 o.dump_argv (dumped_options o) h))
      ≡ (ok (failure e, w'), h')
    → main dumped_options dumped shown message check setup o w env h
      ≡ (exit 1, told 2 true (bytes "Backend initialization failed: " ++ message e) h')
unfolding main start
main-exits dumped_options dumped shown message check res setup e o env w w' h h' prints made up =
    >>-ok _ _ env _ (note_lem env prints o.dump_argv (dumped_options o) h)
    ∙ >>-ok _ _ env _ (system_check_lem env prints o check res _ made)
    ∙ >>=-ok _ _ env _ up
    ∙ >>-ok _ _ env _
        (print_lem env prints 2 (bytes "Backend initialization failed: " ++ message e) h')
    ∙ unfold ◌>>=◌ in refl
