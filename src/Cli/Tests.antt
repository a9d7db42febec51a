-- ===== src/Cli/Tests.antt =====
-- Tests of the readers of minion-cli/src/main.rs, and their theorems at concrete texts.
use minion.Report
use minion.Erased.{Op, ErasedBackend, DynSandbox}
use minion.Os.Samples.{quiet}
use minion.Os.{History, ok, exit}
use minion.Os.Calls.{dup}
use minion.Options.{ExitCode}
use minion.Cli.{ExecOpt}
use minion.Cli.Main.{main}
use minion.Cli.Output.{Served, told, cpu_note, exit_line, main-Served, main-exits}
use minion.Base.{ℕ, ◌+◌, true, false, Text, decimal, ◌≡◌, refl, some, none, [], ◌∷◌, bytes, text_eq}
use minion.Os.{success, failure}
use minion.Options.{SharedItem, full}
use minion.Cli.{
  EnvItem, parse_env_item, format_env_item, parse_path_exposition_item, wrong_parts, has_byte,
}
use minion.Cli.Items.{parse_env_item-format_env_item, parse_path_exposition_item_lem}

abbrev query : EnvItem
query = record { name = bytes "QUERY"; value = bytes "a=b" }

parse_env_item-format_env_item_example : parse_env_item (format_env_item query) ≡ some query
unfolding has_byte
parse_env_item-format_env_item_example = parse_env_item-format_env_item query refl

parse_env_item-none : parse_env_item (bytes "HOME") ≡ none
unfolding parse_env_item
parse_env_item-none = refl

abbrev tmp_item : SharedItem
tmp_item = record {
  id = none;
  src = bytes "/tmp";
  dest = bytes "/out:recursive";
  kind = full;
  flags = [];
}

flags_stay_in_destination :
    parse_path_exposition_item (bytes "/tmp:rwx:/out:recursive") ≡ success tmp_item
unfolding parse_path_exposition_item text_eq
flags_stay_in_destination = refl

too_few_parts : parse_path_exposition_item (bytes "/tmp:rwx") ≡ failure (wrong_parts 2)
unfolding parse_path_exposition_item
too_few_parts = refl

parse_path_exposition_item_lem_example :
    parse_path_exposition_item (bytes "/tmp:rwx:/out:recursive") ≡ success tmp_item
unfolding parse_path_exposition_item has_byte text_eq
parse_path_exposition_item_lem_example =
    parse_path_exposition_item_lem (bytes "/tmp") (bytes "rwx") (bytes "/out:recursive") refl refl

-- A backend that counts what it is asked for; the child ends with code 5 over its CPU time.
abbrev answer : {A : Type 0} → A → Op (Unit {0}) ℕ A
answer a w env h = (ok (success a, w + 1), h)

abbrev box : DynSandbox
box = record { type_id = 1; address = 0 }

abbrev counting : ErasedBackend (Unit {0}) ℕ
counting = record {
  new_sandbox = λ o. answer box;
  spawn = λ o s. answer 8;
  check_cpu_tle = λ s. answer true;
  check_real_tle = λ s. answer false;
  kill = λ s. answer tt;
  resource_usage = λ s. answer (record { time = none; memory = none });
  stdin = λ c. answer none;
  stdout = λ c. answer none;
  stderr = λ c. answer none;
  wait_for_exit = λ c. answer 9;
  ready = λ f. answer (record { code = 5 });
}

abbrev options : ExecOpt
options = record {
  executable = bytes "/bin/sleep";
  argv = [];
  env = query ∷ [];
  num_processes = 16;
  memory_limit = 256000000;
  time_limit = 1000;
  dump_argv = false;
  dump_minion_params = false;
  skip_system_check = true;
  isolation_root = bytes "/r";
  exposed_paths = [];
  pwd = bytes "/";
}

abbrev shown_code : ExitCode → Text
shown_code code = decimal code.code

abbrev asked : History
asked = dup 2 ∷ dup 1 ∷ dup 0 ∷ []

abbrev after_exit : History
after_exit = told 1 true (exit_line shown_code (record { code = 5 })) asked

abbrev served : Served (λ o. []) shown_code counting options quiet 1 []
served = record {
  sandbox = box;
  cp = 8;
  future = 9;
  code = record { code = 5 };
  cpu = true;
  real = false;
  created = (2, []);
  spawned = (3, asked);
  waiting = (4, asked);
  exited = (5, asked);
  cpu_checked = (6, after_exit);
  last = (7, told 1 true cpu_note after_exit);
  creates = refl;
  spawns = refl;
  waits = refl;
  ends = refl;
  checks_cpu = refl;
  checks_real = refl;
}

main-Served_example :
    main (λ o. []) (λ o. []) shown_code (λ e. []) some (answer counting) options 0 quiet []
    ≡ (ok 7, told 1 true cpu_note after_exit)
main-Served_example =
    main-Served (λ o. []) (λ o. []) shown_code (λ e. []) some Report.new (answer counting) counting
      options quiet 0 1 [] [] (λ g fd line. refl) refl refl served

exit_without_backend :
    main {F = Unit {0}} {W = ℕ}
      (λ o. [])
      (λ o. [])
      shown_code
      (λ e. bytes "no cgroups")
      some
      (λ w env h. (ok (failure tt, w), h))
      options
      0
      quiet
      []
    ≡ (exit 1, told 2 true (bytes "Backend initialization failed: no cgroups") [])
exit_without_backend =
    main-exits (λ o. []) (λ o. []) shown_code (λ e. bytes "no cgroups") some Report.new
      (λ w env h. (ok (failure tt, w), h)) tt options quiet 0 0 [] [] (λ g fd line. refl) refl refl
