-- ===== src/Options.antt =====
-- src/lib.rs: the data that a client hands to a backend, paths and exit codes. Debug and serde
-- derives are not modelled; a `Duration` is its number of nanoseconds.
pub mod Paths
pub mod Relative
mod Tests
unfoldable pub use Paths.*
use minion.Base.{
  ℕ, ◌+◌, Bool, true, false, Option, none, some, List, [], ◌∷◌, map, Text, bytes, ◌==◌,
  if◌then◌else◌,
}

pub data SharedItemKind : Type 0 where
  readonly full : SharedItemKind

pub record SharedItem : Type 0 where
  pub id : Option Text
  pub src : Text
  pub dest : Text
  pub kind : SharedItemKind
  pub flags : List Text

pub record ResourceUsageData : Type 0 where
  pub time : Option ℕ
  pub memory : Option ℕ

pub record SandboxOptions : Type 0 where
  pub max_alive_process_count : ℕ
  pub memory_limit : ℕ
  pub cpu_time_limit : ℕ
  pub real_time_limit : ℕ
  pub isolation_root : Text
  pub shared_items : List SharedItem

-- `SandboxOptions::make_relative`
unfoldable pub make_relative : Text → Text
unfolding is_absolute strip_root
make_relative p = if is_absolute p then strip_root p else p

unfoldable pub relative_item : SharedItem → SharedItem
relative_item x = record x { dest = make_relative x.dest }

-- `SandboxOptions::postprocess`
unfoldable pub postprocess : SandboxOptions → SandboxOptions
unfolding relative_item
postprocess o = record o { shared_items = map relative_item o.shared_items }

-- A kernel object descriptor.
pub record Handle : Type 0 where
  pub raw : ℕ

pub data InputSpecification : Type 0 where
  null empty pipe : InputSpecification
  handle : Handle → InputSpecification

pub data OutputSpecification : Type 0 where
  null ignore pipe : OutputSpecification
  buffer : Option ℕ → OutputSpecification
  handle : Handle → OutputSpecification

pub record StdioSpecification : Type 0 where
  pub stdin : InputSpecification
  pub stdout : OutputSpecification
  pub stderr : OutputSpecification

pub record ChildProcessOptions : Type 0 where
  pub path : Text
  pub arguments : List Text
  pub environment : List Text
  pub stdio : StdioSpecification
  pub extra_inherit : List Handle
  pub pwd : Text

-- `ExitCode`, with the constants that it declares.
pub record ExitCode : Type 0 where
  pub code : ℕ

abbrev pub ok_code : ExitCode
ok_code = record { code = 0 }

abbrev pub killed : ExitCode
killed = record { code = 0x7eaddeadbeeff00d }

abbrev pub signalled : ExitCode
signalled = record { code = 1000 }

unfoldable pub is_success : ExitCode → Bool
is_success e = e.code == 0

unfoldable pub linux_signal : ℕ → ExitCode
linux_signal sig = record { code = sig + signalled.code }
