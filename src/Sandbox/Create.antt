-- ===== src/Sandbox/Create.antt =====
-- src/linux/sandbox.rs: `LinuxSandbox::create`, with `Seccomp::new` of src/linux/seccomp.rs. The
-- allocator and the driver come back on every way out, since they are shared. `start` is
-- `start_zygote` of src/linux/zygote.rs, and `entered` whether the caller is inside of a runtime of
-- tokio, whose `task::spawn` panics outside of one.
use minion.Base.{
  ℕ, Bool, true, false, Option, none, some, List, [], Text, bytes, ◌&&◌, ltb, u64_limit,
  if◌then◌else◌,
}
use minion.Os.{Sys, Result, success, failure, pure, abort, attempt, sys_text, ◌>>=◌, ◌>>◌}
use minion.Os.Calls.{env_var}
use minion.Options.{SandboxOptions}
use minion.Settings.{Settings, SeccompPolicy, unrestricted, deny_dangerous, pure_policy, manual}
use minion.Errors.{Error, DriverError}
use minion.Uids.{UidAllocator, allocate}
use minion.Jail.{JailOptions, LinuxSharedItem, Seccomp, ZygoteStartupInfo}
use minion.Limits.Types.{ResourceLimits}
use minion.Limits.Driver
use minion.Limits.Driver.{
  Driver, OpaqueEnterHandle, drop_handle, get_watchdog, register_group_details,
}
use minion.Sandbox.{LinuxSandbox, convert_shared_items, drop}

-- The programs of src/linux/seccomp/gen.rs, a generated file.
pub record Programs : Type 0 where
  pub unrestricted_program : Text
  pub deny_dangerous_program : Text
  pub pure_program : Text

-- `Seccomp::new`
unfoldable pub new_seccomp : Programs → SeccompPolicy → Seccomp
new_seccomp gen (manual policy) = record { filter = policy }
new_seccomp gen deny_dangerous = record { filter = gen.deny_dangerous_program }
new_seccomp gen unrestricted = record { filter = gen.unrestricted_program }
new_seccomp gen pure_policy = record { filter = gen.pure_program }

pub record Created : Type 0 where
  pub result : Result Error LinuxSandbox
  pub uids : UidAllocator
  pub driver : Driver

-- `std::env::var(…).is_err()`, negated.
abbrev pub is_set : Result ℕ Text → Bool
is_set (success value) = true
is_set (failure e) = false

-- Which identifier the sandbox gets: none in rootless mode.
unfoldable pub choose_uid : Bool → UidAllocator → UidAllocator × Result Error (Option ℕ)
choose_uid true uids = (uids, success none)
choose_uid false uids =
    let (uids', uid) = allocate uids in
    (uids', elim uid [ none ↦ failure Error.uid_exhausted | some u ↦ success (some u) ])

unfoldable pub jail_options :
    Programs
    → Settings
    → SandboxOptions
    → List LinuxSharedItem
    → Text
    → Option ℕ
    → Driver
    → JailOptions
unfolding new_seccomp
jail_options gen settings o shared_items jail_id sandbox_uid driver = record {
  max_alive_process_count = o.max_alive_process_count;
  memory_limit = o.memory_limit;
  cpu_time_limit = o.cpu_time_limit;
  real_time_limit = o.real_time_limit;
  isolation_root = o.isolation_root;
  shared_items = shared_items;
  jail_id = jail_id;
  allow_mount_ns_failure = settings.allow_unsupported_mount_namespace;
  sandbox_uid = sandbox_uid;
  enable_watchdog = get_watchdog driver;
  seccomp = new_seccomp gen settings.seccomp;
}

unfoldable pub limits_of : SandboxOptions → ResourceLimits
limits_of o = record {
  pids_max = o.max_alive_process_count;
  memory_max = o.memory_limit;
  cpu_usage = o.cpu_time_limit;
}

module _ (gen : Programs) (start : JailOptions → OpaqueEnterHandle → Sys Error ZygoteStartupInfo)
    (slot : ℕ) (settings : Settings) (o : SandboxOptions) (jail_id : Text) (entered : Bool) where
  -- A panic once the sandbox is there: unwinding drops it, which gives its identifier back, and then
  -- the handle.
  unfoldable pub unwind :
      {E : Type 0} → LinuxSandbox → UidAllocator → Driver → OpaqueEnterHandle → Sys E (Unit {0})
  unwind sandbox uids driver handle = do
    var ← attempt (sys_text (env_var (bytes "MINION_DEBUG_KEEP_CGROUPS")))
    (uids', driver') ← drop (is_set var) sandbox uids driver
    drop_handle handle
    abort

  -- `tokio::task::spawn(watchdog(…))`: the limit has to fit 64 bits.
  unfoldable pub spawn_watchdog :
      {E : Type 0} → LinuxSandbox → UidAllocator → Driver → OpaqueEnterHandle → Sys E (Unit {0})
  unfolding unwind
  spawn_watchdog sandbox uids driver handle =
      if ltb o.real_time_limit u64_limit && entered
      then pure tt
      else unwind sandbox uids driver handle

  -- The zygote runs: its slot is filled and registered, and the watchdog task starts.
  unfoldable pub finish :
      {E : Type 0}
      → UidAllocator
      → Driver
      → Option ℕ
      → OpaqueEnterHandle
      → ZygoteStartupInfo
      → Sys E Created
  unfolding spawn_watchdog
  finish uids driver sandbox_uid handle info = do
    driver' ← register_group_details driver jail_id slot
    let sandbox : LinuxSandbox = record {
      id = jail_id;
      options = o;
      zygote = some (record { sock = info.socket; pid = info.zygote_pid });
      state = record { was_cpu_tle = false; was_wall_tle = false };
      watchdog_chan = [];
      dealloc_uid = sandbox_uid;
    }
    spawn_watchdog sandbox uids driver' handle
    drop_handle handle
    pure (record { result = success sandbox; uids = uids; driver = driver' })

  unfoldable pub started :
      {E : Type 0}
      → UidAllocator
      → Driver
      → Option ℕ
      → OpaqueEnterHandle
      → Result Error ZygoteStartupInfo
      → Sys E Created
  unfolding finish
  started uids driver sandbox_uid handle (failure e) =
      drop_handle handle >> pure (record { result = failure e; uids = uids; driver = driver })
  started uids driver sandbox_uid handle (success info) = finish uids driver sandbox_uid handle info

  -- What follows the creation of the group: an error returns without giving the identifier or the
  -- group back.
  unfoldable pub grouped :
      {E : Type 0}
      → UidAllocator
      → Driver
      → Option ℕ
      → List LinuxSharedItem
      → Result DriverError (Driver × OpaqueEnterHandle)
      → Sys E Created
  unfolding jail_options started
  grouped uids driver sandbox_uid items (failure e) =
      pure (record { result = failure (Error.resource_limits e); uids = uids; driver = driver })
  grouped uids driver sandbox_uid items (success (driver', handle)) =
      attempt (start (jail_options gen settings o items jail_id sandbox_uid driver) handle)
      >>= started uids driver' sandbox_uid handle

  unfoldable pub enter :
      {E : Type 0} → UidAllocator → Driver → Option ℕ → List LinuxSharedItem → Sys E Created
  unfolding limits_of grouped
  enter uids driver sandbox_uid items =
      (if ltb o.cpu_time_limit u64_limit then pure tt else abort)
      >> attempt (Driver.create_group driver jail_id (limits_of o))
      >>= grouped uids driver sandbox_uid items

  unfoldable pub chosen :
      {E : Type 0}
      → List LinuxSharedItem
      → Driver
      → UidAllocator × Result Error (Option ℕ)
      → Sys E Created
  unfolding enter
  chosen items driver (uids, failure e) =
      pure (record { result = failure e; uids = uids; driver = driver })
  chosen items driver (uids, success sandbox_uid) = enter uids driver sandbox_uid items

  unfoldable pub converted :
      {E : Type 0} → UidAllocator → Driver → Result Error (List LinuxSharedItem) → Sys E Created
  unfolding choose_uid chosen
  converted uids driver (failure e) =
      pure (record { result = failure e; uids = uids; driver = driver })
  converted uids driver (success items) = chosen items driver (choose_uid settings.rootless uids)

  unfoldable pub create : {E : Type 0} → UidAllocator → Driver → Sys E Created
  unfolding converted
  create uids driver = converted uids driver (convert_shared_items o.shared_items)
