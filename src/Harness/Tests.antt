-- ===== src/Harness/Tests.antt =====
-- The theorem on the master process at two tests.
use minion.Base.{ℕ, ◌≡◌, refl, ◌∷◌, [], some, true, List, Text, bytes, starts_with}
use minion.Os.{Env, ok, exit, pure, leave, ◌>>=◌, ◌>>◌}
use minion.Os.Calls.{Call, command_output, current_exe}
use minion.Os.Samples.{quiet}
use minion.Errors.{Error}
use minion.Harness.{TestCase, ends, check_static, main, get_filter, filtered, contains}
use minion.Harness.Plan.{IsRunner, planned, recorded, main-planned}

abbrev named : Text → TestCase
named name = record {
  name = name;
  description = [];
  test = ends (leave 0);
  time_limit = 1000000000;
  real_time_limit = 2000000000;
  process_count_limit = 1;
  modify_settings = λ o. pure o;
  filter = λ p. true;
}

abbrev cases : List TestCase
cases = named (bytes "test_ok") ∷ named (bytes "test_ret") ∷ []

-- What `ldd` writes, and the path of the program for every other call.
abbrev text_for : Call → Text
text_for (command_output program arguments) = bytes "statically linked"
text_for _ = bytes "/t"

-- `ldd` ends with status zero, and every other command with status one.
abbrev code : Call → ℕ
code (command_output program arguments) = 0
code _ = 1

abbrev failing : Env
failing = record quiet { text = λ h c. text_for c; number = λ h c. code c }

failing-IsRunner : IsRunner failing (bytes "/t") code
failing-IsRunner = record { status = λ h c. refl; found = λ h. refl; number = λ h c. refl }

passes :
    check_static {E = Error} failing []
    ≡ (ok tt, command_output (bytes "ldd") (bytes "/t" ∷ []) ∷ current_exe ∷ [])
unfolding check_static contains starts_with ◌>>=◌ ◌>>◌
passes = refl

main-planned_example :
    main {E = Error} (some (bytes "ok")) true (bytes "prlimit" ∷ []) cases failing [] ≡ (
      exit 1,
      recorded
          (planned (bytes "/t") (get_filter (some (bytes "ok"))) true cases (bytes "prlimit" ∷ []))
          (command_output (bytes "ldd") (bytes "/t" ∷ []) ∷ current_exe ∷ []),
    )
unfolding filtered get_filter contains starts_with
main-planned_example =
    main-planned Error failing (bytes "/t") code failing-IsRunner (some (bytes "ok")) true
      (bytes "prlimit" ∷ []) cases []
      (command_output (bytes "ldd") (bytes "/t" ∷ []) ∷ current_exe ∷ []) passes
