-- ===== src/Errors.antt =====
-- src/linux/error.rs: the error type of the Linux backend. A cause that is only passed on for
-- printing is the error value that it wraps; `IpcError` is that of src/linux/ipc.rs, the driver's
-- errors those of src/linux/limits.rs and its submodules.
use minion.Base.{ℕ, Bool, true, false, Option, Text}

pub data ErrorKind : Type 0 where
  sandbox system : ErrorKind

-- A `serde_json::Error` carries nothing that the code reads.
pub data IpcError : Type 0 where
  serde : IpcError
  syscall : ℕ → IpcError
  ancillary : IpcError

pub data CgroupError : Type 0 where
  write_failed : Text → ℕ → CgroupError
  read_failed : Text → ℕ → CgroupError
  create_cgroup_dir : Text → ℕ → CgroupError
  open_file : Text → ℕ → CgroupError
  duplicate_fd : ℕ → CgroupError
  join : ℕ → CgroupError
  fork : ℕ → CgroupError

pub data PrlimitError : Type 0 where
  ipc : IpcError → PrlimitError
  pids_limit_enforcement_impossible : PrlimitError
  sandbox_gone : PrlimitError

pub data DriverError : Type 0 where
  cgroup : CgroupError → DriverError
  prlimit : PrlimitError → DriverError

pub data CgroupVersion : Type 0 where
  v1 v2 : CgroupVersion

pub data RawSettings : Type 0 where
  cgroup : Text → Text → CgroupVersion → RawSettings
  prlimit : Bool → RawSettings

-- `attempts` of `DriverInitializationError` holds errors of this very type.
mutual
  pub data Error : Type 0 where
    not_supported : Error
    syscall : ℕ → Error
    io : ℕ → Error
    sandbox_misbehavior : Option IpcError → Error
    unknown : Error
    select_driver_impl : Attempts → Error
    resource_limits : DriverError → Error
    sandbox_ipc : IpcError → Error
    invalid_shared_item_flag : Text → Error
    uid_exhausted : Error
    sandbox_gone : Error

  pub data Attempts : Type 0 where
    no_attempts : Attempts
    attempt : RawSettings → Error → Attempts → Attempts

unfoldable pub kind : Error → ErrorKind
kind not_supported = system
kind (syscall _) = system
kind (io _) = system
kind (sandbox_misbehavior _) = sandbox
kind unknown = system
kind (sandbox_ipc _) = sandbox
kind (invalid_shared_item_flag _) = system
kind uid_exhausted = system
kind sandbox_gone = system
kind (resource_limits _) = system
kind (select_driver_impl _) = system

is_kind : ErrorKind → ErrorKind → Bool
is_kind sandbox sandbox = true
is_kind system system = true
is_kind sandbox system = false
is_kind system sandbox = false

unfoldable pub is_system : Error → Bool
unfolding kind is_kind
is_system e = is_kind (kind e) system

unfoldable pub is_sandbox : Error → Bool
unfolding kind is_kind
is_sandbox e = is_kind (kind e) sandbox

-- `nix::Error`: an errno, or one of its other cases.
pub data NixError : Type 0 where
  sys : ℕ → NixError
  other : NixError

-- `From<nix::Error>`
unfoldable pub from_nix : NixError → Error
from_nix (sys errno) = syscall errno
from_nix other = unknown
