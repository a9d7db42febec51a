-- ===== src/Command.antt =====
-- src/command.rs: the child process builder. `&mut self` setters return the new builder; a sandbox
-- is any type `S`, since the builder only passes it on.
pub mod Settings
mod Tests
use minion.Base.{Option, none, some, List, [], ◌∷◌, ◌++◌, Text, bytes}
use minion.Options.{
  ChildProcessOptions, StdioSpecification, InputSpecification, OutputSpecification, empty, ignore,
}

pub record Command (S : Type 0) : Type 0 where
  pub sandbox : Option S
  pub exe : Option Text
  pub argv : List Text
  pub env : List Text
  pub stdin : Option InputSpecification
  pub stdout : Option OutputSpecification
  pub stderr : Option OutputSpecification
  pub current_dir : Option Text

-- `Option::unwrap_or_else`
abbrev pub unwrap_or : {A : Type 0} → Option A → A → A
unwrap_or none d = d
unwrap_or (some a) d = a

module _ {S : Type 0} where
  unfoldable pub new : Command S
  new = record {
    sandbox = none;
    exe = none;
    argv = [];
    env = [];
    stdin = none;
    stdout = none;
    stderr = none;
    current_dir = none;
  }

  unfoldable pub build : Command S → Option ChildProcessOptions
  build c = elim c.exe [
    | none ↦ none
    | some path ↦ some (record {
      path = path;
      arguments = c.argv;
      environment = c.env;
      extra_inherit = [];
      stdio = record {
        stdin = unwrap_or c.stdin empty;
        stdout = unwrap_or c.stdout ignore;
        stderr = unwrap_or c.stderr ignore;
      };
      pwd = unwrap_or c.current_dir (bytes "/");
    })
  ]

  -- `spawn`, given the backend's method. Without a sandbox or an executable it panics: `none`.
  unfoldable pub spawn : {R : Type 0} → (ChildProcessOptions → S → R) → Command S → Option R
  unfolding build
  spawn backend_spawn c = elim c.sandbox [
    | none ↦ none
    | some sandbox ↦ elim (build c) [
      | none ↦ none
      | some options ↦ some (backend_spawn options sandbox)
    ]
  ]

  unfoldable pub set_sandbox : Command S → S → Command S
  set_sandbox c s = record c { sandbox = some s }

  unfoldable pub path : Command S → Text → Command S
  path c p = record c { exe = some p }

  unfoldable pub arg : Command S → Text → Command S
  arg c a = record c { argv = c.argv ++ a ∷ [] }

  unfoldable pub args : Command S → List Text → Command S
  args c xs = record c { argv = c.argv ++ xs }

  unfoldable pub env : Command S → Text → Command S
  env c v = record c { env = c.env ++ v ∷ [] }

  unfoldable pub envs : Command S → List Text → Command S
  envs c vs = record c { env = c.env ++ vs }

  unfoldable pub current_dir : Command S → Text → Command S
  current_dir c p = record c { current_dir = some p }

  unfoldable pub stdin : Command S → InputSpecification → Command S
  stdin c i = record c { stdin = some i }

  unfoldable pub stdout : Command S → OutputSpecification → Command S
  stdout c o = record c { stdout = some o }

  unfoldable pub stderr : Command S → OutputSpecification → Command S
  stderr c o = record c { stderr = some o }
