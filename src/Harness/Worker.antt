-- ===== src/Harness/Worker.antt =====
-- minion-tests/src/worker.rs: a worker sets a sandbox up, starts the test program in it, waits for it
-- and has the test check its outcome. `host` is what the checks of src/linux/check.rs read.
use minion.Base.{
  ℕ, ◌*◌, ◌^◌, ◌||◌, true, Option, none, some, [], ◌∷◌, Text, text_eq, bytes, if◌then◌else◌,
}
use minion.Os.{Sys, Result, success, failure, pure, abort, unwrap, sys_text, ◌>>=◌, ◌>>◌}
use minion.Os.Calls.{current_exe}
use minion.Options.{
  SandboxOptions, readonly, ChildProcessOptions, InputSpecification, OutputSpecification, ExitCode,
}
use minion.Settings
use minion.Settings.{Settings, ResourceDriverKind}
use minion.Errors.{Error}
use minion.Report
use minion.Report.{CheckResult, has_errors, has_warnings}
use minion.Host
use minion.Host.{Host}
use minion.Jail.{JailOptions, ZygoteStartupInfo, Codecs}
use minion.Limits.Driver.{OpaqueEnterHandle}
use minion.Sandbox.Create.{Programs}
use minion.Backend
use minion.Backend.{LinuxBackend}
use minion.Harness.{TestCase}

-- MEMORY_LIMIT_IN_BYTES
abbrev pub memory_limit : ℕ
memory_limit = 4 * 2 ^ 20

-- `none` is `unreachable!()`.
unfoldable pub resource_driver : Text → Option ResourceDriverKind
resource_driver profile =
    if text_eq profile (bytes "cgroup-v1")
    then some Settings.cgroup_v1
    else if text_eq profile (bytes "cgroup-v2")
    then some Settings.cgroup_v2
    else if text_eq profile (bytes "prlimit") || text_eq profile (bytes "prlimit-rootless")
    then some Settings.prlimit
    else none

unfoldable pub profile_settings : Settings → Text → ResourceDriverKind → Settings
profile_settings default profile driver = record default {
  resource_drivers = driver ∷ [];
  rootless = if text_eq profile (bytes "prlimit-rootless") then true else default.rootless;
}

unfoldable pub sandbox_options : TestCase → Text → Text → SandboxOptions
sandbox_options test_case exe tempdir = record {
  cpu_time_limit = test_case.time_limit;
  real_time_limit = test_case.real_time_limit;
  max_alive_process_count = test_case.process_count_limit;
  memory_limit = memory_limit;
  isolation_root = tempdir;
  shared_items =
      record { id = none; src = exe; dest = bytes "/me"; kind = readonly; flags = [] } ∷ [];
}

unfoldable pub process_options : TestCase → ChildProcessOptions
process_options test_case = record {
  path = bytes "/me";
  arguments = test_case.name ∷ [];
  environment = (bytes "__MINION_ROLE_IS_TEST__=1") ∷ [];
  stdio = record {
    stdin = InputSpecification.empty;
    stdout = OutputSpecification.pipe;
    stderr = OutputSpecification.pipe;
  };
  extra_inherit = [];
  pwd = bytes "/";
}

-- `.expect(…)` of an operation that comes back with its world.
expect : {A : Type 0} → Result Error A × LinuxBackend → Sys ⊥ (A × LinuxBackend)
expect (failure e, w) = abort
expect (success a, w) = pure (a, w)

-- The settings have to pass the checks without any message.
validated : Option CheckResult → Sys ⊥ (Unit {0})
validated none = abort
validated (some res) = if has_errors res || has_warnings res then abort else pure tt

-- What a test's check gets: the exit code, the two pipes and the sandbox.
pub record CompletedChild : Type 0 where
  pub exit_code : ExitCode
  pub stdout : ℕ
  pub stderr : ℕ
  pub sandbox : ℕ

taken : Option ℕ → Sys ⊥ ℕ
taken none = abort
taken (some fd) = pure fd

module _ (gen : Programs) (start : JailOptions → OpaqueEnterHandle → Sys Error ZygoteStartupInfo)
    (codecs : Codecs) (draws : ℕ → ℕ → ℕ) where
  -- The backend's life for one test. The runtime is entered.
  unfoldable pub run_test :
      (LinuxBackend → CompletedChild → Sys ⊥ (Unit {0}))
      → TestCase
      → Text
      → Text
      → LinuxBackend
      → Sys ⊥ (Unit {0})
  unfolding expect taken sandbox_options process_options
  run_test check test_case exe tempdir w = do
    r1 ← Backend.new_sandbox gen start codecs draws true (sandbox_options test_case exe tempdir) w
    (sandbox, w1) ← expect r1
    options ← test_case.modify_settings (process_options test_case)
    r2 ← Backend.spawn gen start codecs draws true options sandbox w1
    (cp, w2) ← expect r2
    r3 ← Backend.wait_for_exit gen start codecs draws true cp w2
    (future, w3) ← expect r3
    r4 ← Backend.ready gen start codecs draws true future w3
    (exit_code, w4) ← expect r4
    r5 ← Backend.stdout gen start codecs draws true cp w4
    (out, w5) ← expect r5
    stdout ← taken out
    r6 ← Backend.stderr gen start codecs draws true cp w5
    (errs, w6) ← expect r6
    stderr ← taken errs
    check w6 (record { exit_code = exit_code; stdout = stdout; stderr = stderr; sandbox = sandbox })

  -- `inner_main`, from the test that `TEST` names; `tempdir` is the new temporary directory.
  unfoldable pub inner_main :
      (LinuxBackend → CompletedChild → Sys ⊥ (Unit {0}))
      → (ℕ → Text)
      → Settings
      → Host
      → TestCase
      → Text
      → Text
      → Sys ⊥ (Unit {0})
  unfolding resource_driver profile_settings validated run_test
  inner_main check suffixes default host test_case profile tempdir =
      elim (resource_driver profile) [
        | none ↦ abort
        | some driver ↦ do
          let settings = profile_settings default profile driver
          validated (Host.check settings host Report.new)
          w ← unwrap (Backend.new suffixes settings)
          exe ← unwrap (sys_text current_exe)
          run_test check test_case exe tempdir w
      ]
