-- ===== src/Cli.antt =====
-- minion-cli/src/main.rs: how the command line's items are read, and the options that `main` builds.
-- What clap does with them is not in the repository.
pub mod Items
pub mod Main
pub mod Output
mod Tests
use minion.Base.{
  ℕ, zero, suc, ◌+◌, ◌*◌, ◌%◌, ◌==◌, ◌||◌, min, Bool, Option, none, some, List, [], ◌∷◌, ◌++◌, map,
  Text, bytes, text_eq, length, u32_limit, if◌then◌else◌,
}
use minion.Os.{Result, success, failure}
use minion.Options.{
  SharedItem, SharedItemKind, readonly, full, SandboxOptions, ChildProcessOptions,
  InputSpecification, OutputSpecification, until, after, split_from,
}

pub record EnvItem : Type 0 where
  pub name : Text
  pub value : Text

unfoldable pub has_byte : ℕ → Text → Bool
has_byte sep [] = Bool.false
has_byte sep (c ∷ s) = (c == sep) || has_byte sep s

-- `src.find('=')` and the texts before and after it; `none` is the error message.
unfoldable pub parse_env_item : Text → Option EnvItem
unfolding has_byte
parse_env_item src =
    if has_byte b'=' src
    then some (record { name = until b'=' src; value = after b'=' src })
    else none

-- `splitn(n, sep)`: at most `n` pieces, the last one being the rest.
unfoldable pub splitn_from : ℕ → ℕ → Text → Text → List Text
splitn_from zero sep piece s = []
splitn_from (suc zero) sep piece s = (piece ++ s) ∷ []
splitn_from (suc (suc n)) sep piece [] = piece ∷ []
splitn_from (suc (suc n)) sep piece (c ∷ s) =
    let next = splitn_from (suc n) sep [] s in
    let more = splitn_from (suc (suc n)) sep (piece ++ c ∷ []) s in
    if c == sep then piece ∷ next else more

pub data ExpositionError : Type 0 where
  wrong_parts : ℕ → ExpositionError
  wrong_mask_length : ℕ → ExpositionError
  unknown_mask : Text → ExpositionError

-- `parts.get(3)` split at commas, or no flags.
unfoldable pub flags_of : List Text → List Text
flags_of [] = []
flags_of (flags ∷ rest) = split_from b',' [] flags

unfoldable pub access_kind : Text → Result ExpositionError SharedItemKind
access_kind amask =
    if length amask == 3
    then (if text_eq amask (bytes "rwx")
        then success full
        else if text_eq amask (bytes "r-x")
        then success readonly
        else failure (unknown_mask amask))
    else failure (wrong_mask_length (length amask))

unfoldable pub item : Text → Text → Text → List Text → Result ExpositionError SharedItem
unfolding access_kind flags_of
item src amask dest more = elim (access_kind amask) [
  | failure e ↦ failure e
  | success kind ↦
      success (record { id = none; src = src; dest = dest; kind = kind; flags = flags_of more })
]

-- Three parts or four are accepted.
unfoldable pub item_of_parts : List Text → Result ExpositionError SharedItem
unfolding item
item_of_parts (src ∷ amask ∷ dest ∷ []) = item src amask dest []
item_of_parts (src ∷ amask ∷ dest ∷ flags ∷ []) = item src amask dest (flags ∷ [])
item_of_parts parts = failure (wrong_parts (length parts))

unfoldable pub parse_path_exposition_item : Text → Result ExpositionError SharedItem
unfolding splitn_from item_of_parts
parse_path_exposition_item src = item_of_parts (splitn_from 3 b':' [] src)

pub record ExecOpt : Type 0 where
  pub executable : Text
  pub argv : List Text
  pub env : List EnvItem
  pub num_processes : ℕ
  pub memory_limit : ℕ
  pub time_limit : ℕ
  pub dump_argv : Bool
  pub dump_minion_params : Bool
  pub skip_system_check : Bool
  pub isolation_root : Text
  pub exposed_paths : List SharedItem
  pub pwd : Text

-- The options of `main` for the sandbox; `time_limit * 3` is a `u32` product, which wraps in a
-- release build.
unfoldable pub sandbox_options : ExecOpt → SandboxOptions
sandbox_options o = record {
  max_alive_process_count = min o.num_processes 4294967295;
  memory_limit = o.memory_limit;
  cpu_time_limit = o.time_limit * 1000000;
  real_time_limit = o.time_limit * 3 % u32_limit * 1000000;
  isolation_root = o.isolation_root;
  shared_items = o.exposed_paths;
}

-- `format!("{}={}", name, value)`
unfoldable pub format_env_item : EnvItem → Text
format_env_item v = v.name ++ b'=' ∷ v.value

-- The options of `main` for the process; the descriptors are duplicates of the standard streams.
unfoldable pub process_options : ExecOpt → ℕ → ℕ → ℕ → ChildProcessOptions
unfolding format_env_item
process_options o stdin_fd stdout_fd stderr_fd = record {
  path = o.executable;
  arguments = o.argv;
  environment = map format_env_item o.env;
  stdio = record {
    stdin = InputSpecification.handle (record { raw = stdin_fd });
    stdout = OutputSpecification.handle (record { raw = stdout_fd });
    stderr = OutputSpecification.handle (record { raw = stderr_fd });
  };
  extra_inherit = [];
  pwd = o.pwd;
}
