-- ===== src/Cli/Main.antt =====
-- `main` of minion-cli/src/main.rs, from the parsed options on. The backend and the host are those
-- of the library; a handle is an address in the backend's world. A print is one call, which panics
-- if it fails. The texts that formatting with `{:?}`, `{:#?}` and the errors' `Display` yield are
-- parameters.
use minion.Base.{
  ℕ, ◌-◌, Bool, Option, none, some, [], ◌∷◌, ◌++◌, Text, bytes, u64_limit, if◌then◌else◌,
}
use minion.Os.{
  Sys, Result, success, failure, pure, abort, leave, attempt, unwrap, sys, sys_number, ◌>>=◌, ◌>>◌,
}
use minion.Os.Calls.{dup, write}
use minion.Options.{ChildProcessOptions, ExitCode}
use minion.Report
use minion.Report.{CheckResult, has_errors, fmt}
use minion.Erased.{Op, ErasedBackend, DynSandbox}
use minion.Cli.{ExecOpt, sandbox_options, process_options}

-- `println!` and `eprintln!`
unfoldable pub print : ℕ → Text → Sys ⊥ (Unit {0})
print fd line = unwrap (sys (write fd (line ++ 10 ∷ [])))

unfoldable pub note : Bool → Text → Sys ⊥ (Unit {0})
unfolding print
note exceeded line = if exceeded then print 1 line else pure tt

-- `Result::unwrap`
unfoldable pub expected : {F A : Type 0} → Result F A → Sys ⊥ A
expected (success a) = pure a
expected (failure e) = abort

abbrev pub duplicate_or_minus_one : Result ℕ ℕ → ℕ
duplicate_or_minus_one (success fd) = fd
duplicate_or_minus_one (failure errno) = u64_limit - 1

-- `libc::dup(fd) as u64`
unfoldable pub duplicate : ℕ → Sys ⊥ ℕ
duplicate fd = attempt (sys_number (dup fd)) >>= λ r. pure (duplicate_or_minus_one r)

unfoldable pub checked : Option CheckResult → Sys ⊥ (Unit {0})
unfolding print
checked none = abort
checked (some res) = if has_errors res then print 2 (fmt res) else pure tt

-- The system check, which only reports.
unfoldable pub system_check : ExecOpt → (CheckResult → Option CheckResult) → Sys ⊥ (Unit {0})
unfolding checked
system_check o check = if o.skip_system_check then pure tt else checked (check Report.new)

module _ {F W : Type 0} (dumped : ChildProcessOptions → Text) (shown : ExitCode → Text)
    (b : ErasedBackend F W) where
  -- The child runs until it ends; then the limits that the sandbox found exceeded are reported.
  unfoldable pub finish : DynSandbox → ℕ → W → Sys ⊥ W
  unfolding print note expected
  finish sandbox cp w = do
    (waiting, w1) ← b.wait_for_exit cp w
    future ← expected waiting
    (exited, w2) ← b.ready future w1
    exit_code ← expected exited
    print 1 (bytes "---> Child process exited with code " ++ shown exit_code ++ bytes " <---")
    (cpu, w3) ← b.check_cpu_tle sandbox w2
    cpu_tle ← expected cpu
    note cpu_tle (bytes "Note: CPU time limit was exceeded")
    (real, w4) ← b.check_real_tle sandbox w3
    real_tle ← expected real
    note real_tle (bytes "Note: wall-clock time limit was exceeded")
    pure w4

  -- `main` once it has a backend.
  unfoldable pub run : ExecOpt → W → Sys ⊥ W
  unfolding print expected duplicate finish
  run o w = do
    (created, w1) ← b.new_sandbox (sandbox_options o) w
    sandbox ← expected created
    stdin_fd ← duplicate 0
    stdout_fd ← duplicate 1
    stderr_fd ← duplicate 2
    note o.dump_minion_params (dumped (process_options o stdin_fd stdout_fd stderr_fd))
    (spawned, w2) ← b.spawn (process_options o stdin_fd stdout_fd stderr_fd) sandbox w1
    cp ← expected spawned
    finish sandbox cp w2

module _ {F W : Type 0} (dumped_options : ExecOpt → Text) (dumped : ChildProcessOptions → Text)
    (shown : ExitCode → Text) (message : F → Text) (check : CheckResult → Option CheckResult) where
  unfoldable pub start : ExecOpt → Result F (ErasedBackend F W) → W → Sys ⊥ W
  unfolding print run
  start o (success b) w = run dumped shown b o w
  start o (failure e) w = print 2 (bytes "Backend initialization failed: " ++ message e) >> leave 1

  unfoldable pub main : Op F W (ErasedBackend F W) → ExecOpt → W → Sys ⊥ W
  unfolding note system_check start
  main setup o w = do
    note o.dump_argv (dumped_options o)
    system_check o check
    (backend, w1) ← setup w
    start o backend w1
