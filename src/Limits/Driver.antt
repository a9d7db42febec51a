-- ===== src/Limits/Driver.antt =====
-- src/linux/limits.rs: the configurations to try, and the driver that is chosen and forwards every
-- operation to its implementation. The draws of the random group name are an argument.
use minion.Base.{ℕ, ◌+◌, Bool, true, false, Option, List, [], ◌∷◌, ◌++◌, Text, bytes}
use minion.Os.{
  Sys, Result, success, failure, pure, fail, leave, lift, map_err, attempt, ◌>>=◌, ◌>>◌,
}
use minion.Options.{components, Component, normal}
use minion.Settings.{Settings}
use minion.Limits.Configs.{process_kinds}
use minion.Errors.{
  Error, DriverError, CgroupError, PrlimitError, RawSettings, Attempts, v1, v2, no_attempts,
}
use minion.Errors
use minion.Jail.{ZygoteInfo, Codecs}
use minion.Limits.Types.{InternalResourceUsageData, ResourceLimits}
use minion.Limits.Cgroup
use minion.Limits.Cgroup.{CgroupEnter}
use minion.Limits.V1
use minion.Limits.V1.{CgroupV1}
use minion.Limits.V2
use minion.Limits.V2.{CgroupV2}
use minion.Limits.Prlimit
use minion.Limits.Prlimit.{Prlimit, PrlimitEnter}

pub data OpaqueEnterHandle : Type 0 where
  cgroup_enter : CgroupEnter → OpaqueEnterHandle
  prlimit_enter : PrlimitEnter → OpaqueEnterHandle

-- The drop of a handle: only a cgroup's closes anything.
unfoldable pub drop_handle : {E : Type 0} → OpaqueEnterHandle → Sys E (Unit {0})
unfolding Cgroup.drop
drop_handle (cgroup_enter e) = Cgroup.drop e
drop_handle (prlimit_enter e) = pure tt

unfoldable pub join_inner : OpaqueEnterHandle → Sys ℕ (Unit {0})
unfolding Cgroup.join Prlimit.join
join_inner (cgroup_enter e) = Cgroup.join e
join_inner (prlimit_enter e) = Prlimit.join e

unfoldable pub exit_on_failure : {E : Type 0} → Result ℕ (Unit {0}) → Sys E (Unit {0})
exit_on_failure (success _) = pure tt
exit_on_failure (failure e) = leave 1

-- `OpaqueEnterHandle::join`: a failure ends the process.
unfoldable pub join : {E : Type 0} → OpaqueEnterHandle → Sys E (Unit {0})
unfolding join_inner exit_on_failure
join e = attempt (join_inner e) >>= exit_on_failure

unfoldable pub handle_access : OpaqueEnterHandle → Sys ℕ (Unit {0})
unfolding Cgroup.check_access Prlimit.check_access
handle_access (cgroup_enter e) = Cgroup.check_access e
handle_access (prlimit_enter e) = Prlimit.check_access e

pub data Driver : Type 0 where
  cgroup_v1 : CgroupV1 → Driver
  cgroup_v2 : CgroupV2 → Driver
  prlimit : Prlimit → Driver

-- The normal components of the prefix; the root and dots are dropped.
unfoldable pub normal_components : List Component → List Text
normal_components [] = []
normal_components (normal n ∷ rest) = n ∷ normal_components rest
normal_components (c ∷ rest) = normal_components rest

-- `Driver::new_raw`
unfoldable pub new_raw : RawSettings → Driver
unfolding normal_components
new_raw (RawSettings.cgroup prefix mount v1) =
    cgroup_v1
      (record { cgroupfs_path = mount; cgroup_prefix = normal_components (components prefix) })
new_raw (RawSettings.cgroup prefix mount v2) =
    cgroup_v2
      (record { cgroupfs_path = mount; cgroup_prefix = normal_components (components prefix) })
new_raw (RawSettings.prlimit allow_many_pids) =
    prlimit (record { groups = []; allow_multiple_processes = allow_many_pids })

-- `Driver::create_group`, with the driver after it.
unfoldable pub create_group :
    Driver → Text → ResourceLimits → Sys DriverError (Driver × OpaqueEnterHandle)
create_group (cgroup_v1 g) group_id limits = do
  e ← map_err DriverError.cgroup (V1.create_group g group_id limits)
  pure (cgroup_v1 g, cgroup_enter e)
create_group (cgroup_v2 g) group_id limits = do
  e ← map_err DriverError.cgroup (V2.create_group g group_id limits)
  pure (cgroup_v2 g, cgroup_enter e)
create_group (prlimit p) group_id limits = do
  (p', e) ← map_err DriverError.prlimit (Prlimit.create_group p group_id limits)
  pure (prlimit p', prlimit_enter e)

unfoldable pub resource_usage :
    Codecs → (ℕ → Option ZygoteInfo) → Driver → Text → Sys DriverError InternalResourceUsageData
resource_usage codecs slots (cgroup_v1 g) group_id =
    map_err DriverError.cgroup (V1.resource_usage g group_id)
resource_usage codecs slots (cgroup_v2 g) group_id =
    map_err DriverError.cgroup (V2.resource_usage g group_id)
resource_usage codecs slots (prlimit p) group_id =
    map_err DriverError.prlimit (Prlimit.resource_usage codecs slots p group_id)

unfoldable pub delete_group : Driver → Text → Sys DriverError Driver
delete_group (cgroup_v1 g) group_id = V1.delete_group g group_id >> pure (cgroup_v1 g)
delete_group (cgroup_v2 g) group_id = V2.delete_group g group_id >> pure (cgroup_v2 g)
delete_group (prlimit p) group_id = do p' ← Prlimit.delete_group p group_id; pure (prlimit p')

-- Only the prlimit driver keeps the zygote's slot; the trait's default does nothing.
unfoldable pub register_group_details : {E : Type 0} → Driver → Text → ℕ → Sys E Driver
register_group_details (cgroup_v1 g) group_id z = pure (cgroup_v1 g)
register_group_details (cgroup_v2 g) group_id z = pure (cgroup_v2 g)
register_group_details (prlimit p) group_id z = do
  p' ← Prlimit.register_group_details p group_id z
  pure (prlimit p')

unfoldable pub get_watchdog : Driver → Bool
get_watchdog (cgroup_v1 g) = true
get_watchdog (cgroup_v2 g) = true
get_watchdog (prlimit p) = false

abbrev pub smoke_limits : ResourceLimits
smoke_limits = record { memory_max = 1073741824; pids_max = 1; cpu_usage = 1000000000 }

-- `smoke_check`: the handle is dropped on both ways out; the group itself stays.
unfoldable pub smoke_check : Text → Driver → Sys Error Driver
unfolding drop_handle handle_access create_group
smoke_check suffix driver = do
  (driver', cgroup) ←
      map_err Error.resource_limits
        (create_group driver (bytes "minion-cgroup-access-check-" ++ suffix) smoke_limits)
  result ← attempt (handle_access cgroup)
  drop_handle cgroup
  map_err Error.syscall (lift result)
  pure driver'

unfoldable pub push_attempt : Attempts → RawSettings → Error → Attempts
push_attempt no_attempts config e = Errors.attempt config e no_attempts
push_attempt (Errors.attempt c d rest) config e = Errors.attempt c d (push_attempt rest config e)

-- The loop of `Driver::new` over the configurations; `suffixes` are the random parts of the group
-- names, one for each configuration.
unfoldable pub select : (ℕ → Text) → ℕ → Attempts → List RawSettings → Sys Error Driver
unfolding new_raw smoke_check push_attempt
select suffixes n attempts [] = fail (Error.select_driver_impl attempts)
select suffixes n attempts (config ∷ rest) = do
  result ← attempt (smoke_check (suffixes n) (new_raw config))
  elim result [
    | success driver ↦ pure driver
    | failure e ↦ select suffixes (n + 1) (push_attempt attempts config e) rest
  ]

-- `Driver::new`
unfoldable pub new : (ℕ → Text) → Settings → Sys Error Driver
unfolding select process_kinds
new suffixes settings =
    select suffixes 0 no_attempts (process_kinds settings [] settings.resource_drivers)
