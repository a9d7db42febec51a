-- ===== src/Command/Settings.antt =====
-- What a builder of src/command.rs makes of a whole chain of calls.
use mathlib.Core.List.{append-nil, append_assoc}
use minion.Base.{◌≡◌, refl, ◌∙◌, Option, none, some, List, [], ◌∷◌, ◌++◌, Text, bytes, arith}
use minion.Options.{ChildProcessOptions, InputSpecification, OutputSpecification, empty, ignore}
use minion.Command.{
  Command, new, build, spawn, set_sandbox, path, arg, args, env, envs, current_dir, stdin, stdout,
  stderr, unwrap_or,
}

-- One call of a setter.
pub data Setting (S : Type 0) : Type 0 where
  with_sandbox : S → Setting S
  with_path with_arg with_env with_current_dir : Text → Setting S
  with_args with_envs : List Text → Setting S
  with_stdin : InputSpecification → Setting S
  with_stdout with_stderr : OutputSpecification → Setting S

module _ {S : Type 0} where
  abbrev pub apply : Command S → Setting S → Command S
  apply c (with_sandbox s) = set_sandbox c s
  apply c (with_path p) = path c p
  apply c (with_arg a) = arg c a
  apply c (with_env v) = env c v
  apply c (with_current_dir p) = current_dir c p
  apply c (with_args xs) = args c xs
  apply c (with_envs vs) = envs c vs
  apply c (with_stdin i) = stdin c i
  apply c (with_stdout o) = stdout c o
  apply c (with_stderr o) = stderr c o

  abbrev pub configure : Command S → List (Setting S) → Command S
  configure c [] = c
  configure c (x ∷ xs) = configure (apply c x) xs

  -- The last value that a chain gives to something, or what was there before the chain.
  abbrev pub latest : {A : Type 0} → (Setting S → Option A) → Option A → List (Setting S) → Option A
  latest f o [] = o
  latest f o (x ∷ xs) = latest f (elim (f x) [ none ↦ o | some a ↦ some a ]) xs

  -- What every call contributes to a list, in the order of the calls.
  abbrev pub gathered : {A : Type 0} → (Setting S → List A) → List (Setting S) → List A
  gathered f [] = []
  gathered f (x ∷ xs) = f x ++ gathered f xs

  abbrev pub sandboxes : Setting S → Option S
  sandboxes (with_sandbox s) = some s
  sandboxes _ = none

  abbrev pub paths : Setting S → Option Text
  paths (with_path p) = some p
  paths _ = none

  abbrev pub dirs : Setting S → Option Text
  dirs (with_current_dir p) = some p
  dirs _ = none

  abbrev pub inputs : Setting S → Option InputSpecification
  inputs (with_stdin i) = some i
  inputs _ = none

  abbrev pub outputs : Setting S → Option OutputSpecification
  outputs (with_stdout o) = some o
  outputs _ = none

  abbrev pub errors : Setting S → Option OutputSpecification
  errors (with_stderr o) = some o
  errors _ = none

  abbrev pub arguments : Setting S → List Text
  arguments (with_arg a) = a ∷ []
  arguments (with_args xs) = xs
  arguments _ = []

  abbrev pub variables : Setting S → List Text
  variables (with_env v) = v ∷ []
  variables (with_envs vs) = vs
  variables _ = []

  abbrev settled : Command S → List (Setting S) → Command S
  settled c xs = record {
    sandbox = latest sandboxes c.sandbox xs;
    exe = latest paths c.exe xs;
    argv = c.argv ++ gathered arguments xs;
    env = c.env ++ gathered variables xs;
    stdin = latest inputs c.stdin xs;
    stdout = latest outputs c.stdout xs;
    stderr = latest errors c.stderr xs;
    current_dir = latest dirs c.current_dir xs;
  }

  configure-settled : (c : Command S) (xs : List (Setting S)) → configure c xs ≡ settled c xs
  unfolding set_sandbox path arg args env envs current_dir stdin stdout stderr
  configure-settled c [] = rw (append-nil c.argv, append-nil c.env) refl
  configure-settled c (with_arg a ∷ xs) = configure-settled (arg c a) xs ∙ simp append_assoc
  configure-settled c (with_env v ∷ xs) = configure-settled (env c v) xs ∙ simp append_assoc
  configure-settled c (with_args ys ∷ xs) = configure-settled (args c ys) xs ∙ simp append_assoc
  configure-settled c (with_envs vs ∷ xs) = configure-settled (envs c vs) xs ∙ simp append_assoc
  configure-settled c (x ∷ xs) = configure-settled (apply c x) xs

  -- What the process gets when the calls `xs` made the builder and `p` was the last path given.
  abbrev pub built : Text → List (Setting S) → ChildProcessOptions
  built p xs = record {
    path = p;
    arguments = gathered arguments xs;
    environment = gathered variables xs;
    extra_inherit = [];
    stdio = record {
      stdin = unwrap_or (latest inputs none xs) empty;
      stdout = unwrap_or (latest outputs none xs) ignore;
      stderr = unwrap_or (latest errors none xs) ignore;
    };
    pwd = unwrap_or (latest dirs none xs) (bytes "/");
  }

  -- After any chain of calls on a new builder, `build` fails exactly if no path was given; else the
  -- last path, directory and stdio given are used (with the defaults `/`, an empty input and an
  -- ignored output), and all arguments and variables stand in the order of the calls.
  pub build-configure :
      (xs : List (Setting S))
      → build (configure new xs)
        ≡ elim (latest paths none xs) [ none ↦ none | some p ↦ some (built p xs) ]
  unfolding build new
  build-configure xs = rw (configure-settled new xs)

  -- `spawn` runs the backend on the built options and the last sandbox given, and panics exactly
  -- if no sandbox or no path was given.
  pub spawn-configure :
      {R : Type 0} (backend_spawn : ChildProcessOptions → S → R) (xs : List (Setting S))
      → spawn backend_spawn (configure new xs) ≡ elim (latest sandboxes none xs) [
        | none ↦ none
        | some s ↦ elim (latest paths none xs) [
          | none ↦ none
          | some p ↦ some (backend_spawn (built p xs) s)
        ]
      ]
  unfolding spawn new
  spawn-configure b xs = rw (configure-settled new xs) (ground arith)
