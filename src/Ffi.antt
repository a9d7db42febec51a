-- ===== src/Ffi.antt =====
-- minion-ffi/src/lib.rs: the functions that C code calls, over any backend of src/erased.rs. `Memory`
-- reads what the caller laid out, `Objects` has the boxes behind the pointers that the library
-- hands out and the functions on them, `Process` the start of a process and the wait for it.
pub mod Memory
pub mod Outside
pub mod Objects
pub mod Process
pub mod Passing
mod Tests
use minion.Base.{ℕ, ◌+◌, ◌*◌, Text, bytes, ◌++◌, ◌∷◌, []}

pub data ErrorCode : Type 0 where
  ok invalid_input minion_error : ErrorCode

-- `minion_describe_status`, with the zero byte at the end.
unfoldable pub describe_status : ErrorCode → Text
describe_status ok = bytes "ok" ++ 0 ∷ []
describe_status invalid_input = bytes "invalid input" ++ 0 ∷ []
describe_status minion_error = bytes "minion error" ++ 0 ∷ []

pub data WaitOutcome : Type 0 where
  exited timeout : WaitOutcome

pub record TimeSpec : Type 0 where
  pub seconds : ℕ
  pub nanoseconds : ℕ

-- `Duration::new`, in nanoseconds.
unfoldable pub duration : TimeSpec → ℕ
duration t = t.seconds * 1000000000 + t.nanoseconds

-- The structures that are passed by value; a pointer is an address.
pub record SandboxOptions : Type 0 where
  pub cpu_time_limit : TimeSpec
  pub real_time_limit : TimeSpec
  pub process_limit : ℕ
  pub memory_limit : ℕ
  pub isolation_root : ℕ
  pub shared_items : ℕ

pub record StdioHandleSet : Type 0 where
  pub stdin : ℕ
  pub stdout : ℕ
  pub stderr : ℕ

pub record ChildProcessOptions : Type 0 where
  pub image_path : ℕ
  pub argv : ℕ
  pub envp : ℕ
  pub stdio : StdioHandleSet
  pub sandbox : ℕ
  pub workdir : ℕ

pub record EnvItem : Type 0 where
  pub name : ℕ
  pub value : ℕ

-- `ENV_ITEM_FIN`, which ends a caller's array of variables.
abbrev pub env_item_fin : EnvItem
env_item_fin = record { name = 0; value = 0 }

pub data StdioMember : Type 0 where
  stdin stdout stderr : StdioMember

pub data SharedItemAccessKind : Type 0 where
  full readonly : SharedItemAccessKind

pub record SharedItem : Type 0 where
  pub kind : SharedItemAccessKind
  pub host_path : ℕ
  pub sandbox_path : ℕ
  pub flags : ℕ

-- `SHARED_DIRECTORY_ACCESS_FIN`, which ends a caller's array of shared items.
abbrev pub shared_directory_access_fin : SharedItem
shared_directory_access_fin = record { kind = full; host_path = 0; sandbox_path = 0; flags = 0 }
