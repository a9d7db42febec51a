-- ===== src/Harness.antt =====
-- minion-tests/src/main.rs and minion-tests/src/master.rs: the program that runs each test in a
-- worker process of its own. What it prints is not modelled; the arguments are what the argument parser yields.
pub mod Plan
pub mod Worker
pub mod Fill
pub mod Cases
mod Tests
use minion.Base.{
  ℕ, ◌==◌, ◌&&◌, Bool, true, false, Option, none, some, List, [], ◌∷◌, ◌++◌, Text, bytes,
  starts_with, text_eq, if◌then◌else◌,
}
use minion.Os.{Sys, pure, abort, leave, unwrap, sys_number, sys_text, sys_output, ◌>>=◌, ◌>>◌}
use minion.Os.Calls.{current_exe, run_command, command_output}
use minion.Options.{ChildProcessOptions}

-- The body of a test: what it does until it ends, or until it computes for ever.
pub data Body : Type 0 where
  ends : Sys ⊥ ⊥ → Body
  computes : Sys ⊥ (Unit {0}) → Body

-- `trait TestCase`, but for the check of the outcome, which is in Cases; times in nanoseconds.
pub record TestCase : Type 0 where
  pub name : Text
  pub description : Text
  pub test : Body
  pub time_limit : ℕ
  pub real_time_limit : ℕ
  pub process_count_limit : ℕ
  pub modify_settings : ChildProcessOptions → Sys ⊥ ChildProcessOptions
  pub filter : Text → Bool

pub data Role : Type 0 where
  master worker test : Role

-- `get_role`, by the two variables.
unfoldable pub get_role : Option Text → Option Text → Role
get_role (some v) t = worker
get_role none (some v) = test
get_role none none = master

pub data Outcome : Type 0 where
  success failure : Outcome

unfoldable pub and : Outcome → Outcome → Outcome
and failure that = failure
and success that = that

pub record ExecuteOptions : Type 0 where
  pub trace : Bool
  pub profile : Text

abbrev strace_log : Text → Text → Text
strace_log profile name = bytes "strace-log-" ++ profile ++ bytes "-" ++ name ++ bytes ".txt"

-- The program and its arguments.
unfoldable pub command_line : Text → Text → ExecuteOptions → Text × List Text
command_line self_exe name opts =
    if opts.trace
    then (
      bytes "strace",
      bytes "-f"
          ∷ bytes "-s"
          ∷ bytes "512"
          ∷ bytes "-o"
          ∷ strace_log opts.profile name
          ∷ self_exe
          ∷ [],
    )
    else (self_exe, [])

-- The whole environment of a worker.
unfoldable pub worker_environment : Text → ExecuteOptions → List (Text × Text)
worker_environment name opts =
    (bytes "PROFILE", opts.profile)
    ∷ (bytes "__MINION_ROLE_IS_WORKER__", bytes "1")
    ∷ (bytes "TEST", name)
    ∷ (bytes "RUST_BACKTRACE", bytes "full")
    ∷ []

abbrev pub outcome_of : ℕ → Outcome
outcome_of status = if status == 0 then success else failure

unfoldable pub execute_single_test : {E : Type 0} → TestCase → ExecuteOptions → Sys E Outcome
unfolding command_line worker_environment
execute_single_test case_ opts = do
  self_exe ← unwrap (sys_text current_exe)
  let (program, args) = command_line self_exe case_.name opts
  status ← unwrap (sys_number (run_command program args (worker_environment case_.name opts)))
  pure (outcome_of status)

-- The loop of `execute_tests`.
unfoldable pub execute_from :
    {E : Type 0} → ExecuteOptions → Outcome → List TestCase → Sys E Outcome
unfolding execute_single_test and
execute_from opts outcome [] = pure outcome
execute_from opts outcome (c ∷ cs) = do
  that ← execute_single_test c opts
  execute_from opts (and outcome that) cs

unfoldable pub execute_tests : {E : Type 0} → List TestCase → ExecuteOptions → Sys E Outcome
unfolding execute_from
execute_tests cases opts = execute_from opts success cases

-- `str::contains`
unfoldable pub contains : Text → Text → Bool
contains [] pattern = starts_with [] pattern
contains (c ∷ s) pattern =
    let later = contains s pattern in if starts_with (c ∷ s) pattern then true else later

unfoldable pub get_filter : Option Text → TestCase → Bool
unfolding contains
get_filter none c = true
get_filter (some filter) c = contains c.name filter

unfoldable pub filtered : (TestCase → Bool) → Text → List TestCase → List TestCase
filtered filter profile [] = []
filtered filter profile (c ∷ cs) =
    let rest = filtered filter profile cs in if filter c && c.filter profile then c ∷ rest else rest

-- The loop of `main` over the profiles.
unfoldable pub run_profiles :
    {E : Type 0} → (TestCase → Bool) → Bool → List TestCase → Outcome → List Text → Sys E Outcome
unfolding execute_tests filtered and
run_profiles filter trace cases outcome [] = pure outcome
run_profiles filter trace cases outcome (profile ∷ rest) = do
  that ← execute_tests (filtered filter profile cases) (record { trace = trace; profile = profile })
  run_profiles filter trace cases (and outcome that) rest

unfoldable pub finish : {E : Type 0} → Outcome → Sys E (Unit {0})
finish success = pure tt
finish failure = leave 1

-- What the assertions on the status and the output of `ldd` do. Reading the output as UTF-8 changes
-- no ASCII character.
unfoldable pub statically_linked : {E : Type 0} → ℕ × Text → Sys E (Unit {0})
unfolding contains
statically_linked (status, out) =
    if (status == 0) && contains out (bytes "statically linked") then pure tt else abort

unfoldable pub check_static : {E : Type 0} → Sys E (Unit {0})
unfolding statically_linked
check_static = do
  self_exe ← unwrap (sys_text current_exe)
  ldd_output ← unwrap (sys_output (command_output (bytes "ldd") (self_exe ∷ [])))
  statically_linked ldd_output

-- `master::main`, from its arguments.
unfoldable pub main :
    {E : Type 0} → Option Text → Bool → List Text → List TestCase → Sys E (Unit {0})
unfolding check_static get_filter run_profiles finish
main test_filter trace profiles cases = do
  check_static
  outcome ← run_profiles (get_filter test_filter) trace cases success profiles
  finish outcome

-- `test_cases.iter().find(…)`
unfoldable pub find_test : Text → List TestCase → Option TestCase
find_test name [] = none
find_test name (c ∷ cs) =
    let rest = find_test name cs in if text_eq c.name name then some c else rest

-- What `main` of main.rs goes on with: the master's part, the worker's, or the body of the test that
-- the first argument names. A missing argument or test panics.
pub data Dispatch : Type 0 where
  to_master to_worker : Dispatch
  to_test : Body → Dispatch
  panics : Dispatch

abbrev body_of : Option TestCase → Dispatch
body_of none = panics
body_of (some c) = to_test c.test

unfoldable pub dispatch : Role → Option Text → List TestCase → Dispatch
unfolding find_test
dispatch master argument cases = to_master
dispatch worker argument cases = to_worker
dispatch test none cases = panics
dispatch test (some name) cases = body_of (find_test name cases)
