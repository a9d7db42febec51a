-- ===== src/Harness/Cases.antt =====
-- minion-tests/src/tests.rs and minion-tests/src/tests/simple.rs: the tests with what each expects
-- of its run.
use minion.Base.{
  ℕ, ◌*◌, ◌%◌, ◌==◌, ◌||◌, not, Bool, true, false, none, some, List, [], ◌∷◌, ◌++◌, Text, text_eq,
  bytes, length, if◌then◌else◌,
}
use minion.Os.{
  Sys, Result, success, failure, pure, abort, leave, unwrap, attempt, sys, sys_number, sys_text,
  sys_pair, ◌>>=◌, ◌>>◌,
}
use minion.Os.Calls.{
  read_to_end, read_file, create_dir, mount, sleep, write, read, dup2, close, fork,
}
use minion.Os.Calls
use minion.Options.{ChildProcessOptions, ExitCode, killed, linux_signal}
use minion.Errors.{Error}
use minion.Jail.{JailOptions, ZygoteStartupInfo, Codecs}
use minion.Limits.Driver.{OpaqueEnterHandle}
use minion.Sandbox.Create.{Programs}
use minion.Backend
use minion.Backend.{LinuxBackend}
use minion.Harness.{TestCase, Body, ends, computes}
use minion.Harness.Fill.{memory_hash}
use minion.Harness.Worker.{CompletedChild}

abbrev seconds : ℕ → ℕ
seconds n = n * 1000000000

abbrev any_profile : Text → Bool
any_profile profile = true

abbrev rooted : Text → Bool
rooted profile = not (text_eq profile (bytes "prlimit-rootless"))

abbrev unmodified : ChildProcessOptions → Sys ⊥ ChildProcessOptions
unmodified o = pure o

-- A pipe with a message in it becomes descriptor 779 of the job.
unfoldable pub pass_message : ChildProcessOptions → Sys ⊥ ChildProcessOptions
pass_message settings = do
  (rx, tx) ← unwrap (sys_pair Calls.pipe)
  n ← unwrap (sys_number (write tx (bytes "hi there")))
  unwrap (sys (close tx))
  unwrap (sys (dup2 rx 779))
  unwrap (sys (close rx))
  pure (record settings { extra_inherit = settings.extra_inherit ++ record { raw = 779 } ∷ [] })

-- The programs of `test_ok`, `test_exit_nonzero` and `test_idleness_limit_exceeded`.
unfoldable pub exit_with : ℕ → Sys ⊥ ⊥
exit_with code = leave code

unfoldable pub idle : Sys ⊥ ⊥
idle = do left ← unwrap (sys_number (sleep 1000000000)); leave 0

abbrev failed_with : ℕ → Result ℕ (Unit {0}) → Bool
failed_with errno (success _) = false
failed_with errno (failure e) = e == errno

abbrev assert : Bool → Sys ⊥ (Unit {0})
assert true = pure tt
assert false = abort

abbrev is_failure : {A : Type 0} → Result ℕ A → Bool
is_failure (success a) = false
is_failure (failure e) = true

-- EACCES and EPERM are `PermissionDenied`.
abbrev denied : {A : Type 0} → Result ℕ A → Bool
denied (success a) = false
denied (failure e) = (e == 13) || (e == 1)

unfoldable pub restricted : Sys ⊥ ⊥
restricted = do
  contents ← attempt (sys_text (read_file (bytes "/proc/1/environ")))
  assert (denied contents)
  unwrap (sys (create_dir (bytes "/prcfs")))
  mounted ←
      attempt (sys (mount (some (bytes "proc")) (bytes "/prcfs") (some (bytes "proc")) 0 none))
  assert (failed_with 1 mounted)
  leave 24

abbrev is_message : Result ℕ Text → Sys ⊥ ⊥
is_message (failure e) = leave 3
is_message (success buf) =
    if not (length buf == 8)
    then leave 3
    else if text_eq buf (bytes "hi there")
    then leave 0
    else leave 4

unfoldable pub inherited : Sys ⊥ ⊥
inherited = do
  out ← attempt (sys_number (write 1 (bytes "stdout")))
  if is_failure out then leave 1 else pure tt
  errs ← attempt (sys_number (write 2 (bytes "stderr")))
  if is_failure errs then leave 2 else pure tt
  buf ← attempt (sys_text (read 779 8))
  is_message buf

-- The defaults of `trait TestCase`.
unfoldable pub default_case : Text → Text → Body → TestCase
default_case name description test = record {
  name = name;
  description = description;
  test = test;
  time_limit = seconds 1;
  real_time_limit = seconds 2;
  process_count_limit = 1;
  modify_settings = unmodified;
  filter = any_profile;
}

-- `exceed_time_limit`, after nothing and after a fork.
abbrev exceed_time_limit : Body
exceed_time_limit = computes (pure tt)

unfoldable pub fork_first : Sys ⊥ (Unit {0})
fork_first = do pid ← unwrap (sys_number fork); pure tt

-- What `test_out_of_memory` exits with if it gets its memory, which is a hash of it.
abbrev hashed : Body
hashed = ends (leave (memory_hash % 256))

unfoldable pub t_ok : TestCase
unfolding default_case exit_with
t_ok =
    record (default_case (bytes "test_ok") (bytes "tests that exit(0) program works")
      (ends (exit_with 0))) { real_time_limit = seconds 5 }

unfoldable pub t_tl : TestCase
unfolding default_case
t_tl =
    default_case (bytes "test_cpu_time_limit_exceeded")
      (bytes "contains program that always does work and checks that is it terminated")
      exceed_time_limit

unfoldable pub t_tl_fork : TestCase
unfolding default_case fork_first
t_tl_fork =
    record (default_case (bytes "test_cpu_time_limit_with_fork")
      (bytes
        "launches two threads that consume time and checks that they are killed because of CPU time limit (TODO: verify this is not wall-clock time limit)")
      (computes fork_first)) { process_count_limit = 2; filter = rooted }

unfoldable pub t_idle : TestCase
unfolding default_case idle
t_idle =
    default_case (bytes "test_idleness_limit_exceeded")
      (bytes "launches program that sleeps for very long time checks that it still will be killed")
      (ends idle)

unfoldable pub t_ret1 : TestCase
unfolding default_case exit_with
t_ret1 =
    default_case (bytes "test_exit_nonzero") (bytes "launches simple program that returns 1")
      (ends (exit_with 1))

unfoldable pub t_oom : TestCase
unfolding default_case
t_oom =
    record (default_case (bytes "test_out_of_memory")
      (bytes
        "launches program that consumes more memory than allowed and checks that program was killed")
      hashed) { time_limit = seconds 10; real_time_limit = seconds 20 }

unfoldable pub t_security : TestCase
unfolding default_case restricted
t_security =
    record (default_case (bytes "test_security_restrictions")
      (bytes "verifies that isolated program can not make certain bad things") (ends restricted)) {
        filter = rooted;
      }

unfoldable pub t_inherit : TestCase
unfolding default_case inherited pass_message
t_inherit =
    record (default_case (bytes "test_handle_inheritance")
      (bytes "verifies that handle inheritance works") (ends inherited)) {
        modify_settings = pass_message;
      }

-- `get_tests`
unfoldable pub tests : List TestCase
unfolding t_ok t_tl t_tl_fork t_idle t_ret1 t_oom t_security t_inherit
tests = t_ok ∷ t_tl ∷ t_tl_fork ∷ t_idle ∷ t_ret1 ∷ t_oom ∷ t_security ∷ t_inherit ∷ []

unfoldable pub assert_contains : ℕ → Text → Sys ⊥ (Unit {0})
assert_contains r expected = do
  actual ← unwrap (sys_text (read_to_end r))
  assert (text_eq actual expected)

unfoldable pub is_among : ExitCode → List ExitCode → Bool
is_among e [] = false
is_among e (x ∷ xs) = (e.code == x.code) || is_among e xs

unfoldable pub assert_exit_code_in : CompletedChild → List ExitCode → Sys ⊥ (Unit {0})
unfolding is_among
assert_exit_code_in cp expected = assert (is_among cp.exit_code expected)

unfoldable pub assert_killed : CompletedChild → Sys ⊥ (Unit {0})
unfolding assert_exit_code_in
assert_killed cp = assert_exit_code_in cp (killed ∷ linux_signal 9 ∷ [])

-- An exit code and the whole output.
unfoldable pub assert_run : CompletedChild → ℕ → Text → Text → Sys ⊥ (Unit {0})
unfolding assert_exit_code_in assert_contains
assert_run cp code out errs =
    assert_exit_code_in cp (record { code = code } ∷ [])
    >> assert_contains cp.stdout out
    >> assert_contains cp.stderr errs

-- The checks of `test_ok`, `test_exit_nonzero`, `test_security_restrictions` and
-- `test_handle_inheritance`; the three tests of time limits have `assert_killed`.
unfoldable pub check_ok : CompletedChild → Sys ⊥ (Unit {0})
unfolding assert_run
check_ok cp = assert_run cp 0 [] []

unfoldable pub check_nonzero : CompletedChild → Sys ⊥ (Unit {0})
unfolding assert_exit_code_in
check_nonzero cp = assert_exit_code_in cp (record { code = 1 } ∷ [])

unfoldable pub check_restricted : CompletedChild → Sys ⊥ (Unit {0})
unfolding assert_run
check_restricted cp = assert_run cp 24 [] []

unfoldable pub check_inherited : CompletedChild → Sys ⊥ (Unit {0})
unfolding assert_run
check_inherited cp = assert_run cp 0 (bytes "stdout") (bytes "stderr")

abbrev is_not_exceeded : Result Error Bool × LinuxBackend → Sys ⊥ LinuxBackend
is_not_exceeded (failure e, w) = abort
is_not_exceeded (success true, w) = abort
is_not_exceeded (success false, w) = pure w

module _ (gen : Programs) (start : JailOptions → OpaqueEnterHandle → Sys Error ZygoteStartupInfo)
    (codecs : Codecs) (draws : ℕ → ℕ → ℕ) where
  -- The check of `test_out_of_memory`, after which neither limit on time was reported.
  unfoldable pub check_out_of_memory : LinuxBackend → CompletedChild → Sys ⊥ (Unit {0})
  unfolding assert_exit_code_in
  check_out_of_memory w cp = do
    assert_exit_code_in cp (linux_signal 9 ∷ linux_signal 11 ∷ [])
    cpu ← Backend.check_cpu_tle gen start codecs draws true cp.sandbox w
    w' ← is_not_exceeded cpu
    real ← Backend.check_real_tle gen start codecs draws true cp.sandbox w'
    w'' ← is_not_exceeded real
    pure tt
