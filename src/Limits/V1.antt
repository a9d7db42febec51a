-- ===== src/Limits/V1.antt =====
-- src/linux/limits/cgroup_v1.rs: the driver for legacy cgroups, one directory per subsystem.
use minion.Base.{
  ℕ, ◌==◌, ◌||◌, Bool, none, some, List, [], ◌∷◌, ◌++◌, Text, bytes, decimal, parse_uint, u64_limit,
  if◌then◌else◌,
}
use minion.Os.{Sys, pure, abort, map_err, ignore, sys, sys_number, sys_text, ◌>>=◌, ◌>>◌}
use minion.Os.Calls.{
  write_file, read_to_string, create_dir_all, remove_dir, open_file, write_only, dup,
}
use minion.Options.{join}
use minion.Errors.{CgroupError, write_failed, read_failed, create_cgroup_dir, duplicate_fd}
use minion.Errors
use minion.Limits.Types.{InternalResourceUsageData, ResourceLimits}
use minion.Limits.Cgroup.{CgroupEnter}

pub record CgroupV1 : Type 0 where
  pub cgroupfs_path : Text
  pub cgroup_prefix : List Text

unfoldable pub push_all : Text → List Text → Text
push_all p [] = p
push_all p (comp ∷ rest) = push_all (join p comp) rest

-- `get_path_for_cgroup_legacy_subsystem`
unfoldable pub subsystem_path : CgroupV1 → Text → Text → Text
unfolding push_all
subsystem_path g subsys_name cgroup_id =
    join (push_all (join g.cgroupfs_path subsys_name) g.cgroup_prefix)
      (bytes "sandbox." ++ cgroup_id)

unfoldable pub write_number : CgroupV1 → Text → Text → Text → ℕ → Sys CgroupError (Unit {0})
write_number g cgroup_id subsys_name file_name num =
    let path = join (subsystem_path g subsys_name cgroup_id) file_name in
    map_err (write_failed path) (sys (write_file path (decimal num)))

unfoldable pub read_file : CgroupV1 → Text → Text → Text → Sys CgroupError Text
read_file g cgroup_id subsys_name file_name =
    let path = join (subsystem_path g subsys_name cgroup_id) file_name in
    map_err (read_failed path) (sys_text (read_to_string path))

unfoldable pub create_cgroup : CgroupV1 → Text → Text → Sys CgroupError (Unit {0})
create_cgroup g cgroup_id subsys_name =
    let path = subsystem_path g subsys_name cgroup_id in
    map_err (create_cgroup_dir path) (sys (create_dir_all path))

-- ASCII white space, at both ends.
is_space : ℕ → Bool
is_space c = (c == 32) || (c == 9) || (c == 10) || (c == 11) || (c == 12) || (c == 13)

unfoldable pub trim_start : Text → Text
unfolding is_space
trim_start [] = []
trim_start (c ∷ s) = let rest = trim_start s in if is_space c then rest else c ∷ s

unfoldable pub trim_end : Text → Text
unfolding is_space
trim_end [] = []
trim_end (c ∷ s) = elim (trim_end s) [ [] ↦ if is_space c then [] else c ∷ [] | d ∷ r ↦ c ∷ d ∷ r ]

unfoldable pub trim : Text → Text
unfolding trim_start trim_end
trim s = trim_end (trim_start s)

-- `.trim().parse().unwrap()` into a `u64`.
unfoldable pub parsed : Text → Sys CgroupError ℕ
unfolding trim
parsed s = elim (parse_uint u64_limit (trim s)) [ none ↦ abort | some n ↦ pure n ]

unfoldable pub get_memory_usage : CgroupV1 → Text → Sys CgroupError ℕ
get_memory_usage g cgroup_id = do
  usage ← read_file g cgroup_id (bytes "memory") (bytes "memory.max_usage_in_bytes")
  parsed usage

unfoldable pub get_cpu_usage : CgroupV1 → Text → Sys CgroupError ℕ
get_cpu_usage g cgroup_id = do
  usage ← read_file g cgroup_id (bytes "cpuacct") (bytes "cpuacct.usage")
  parsed usage

unfoldable pub drop_cgroup : {E : Type 0} → CgroupV1 → Text → List Text → Sys E (Unit {0})
drop_cgroup g cgroup_id [] = pure tt
drop_cgroup g cgroup_id (subsys ∷ rest) =
    ignore (sys (remove_dir (subsystem_path g subsys cgroup_id))) >> drop_cgroup g cgroup_id rest

-- The closure that opens the tasks file of one subsystem and duplicates its descriptor. The opened
-- descriptor itself was released by `into_raw_fd`, so nothing closes it.
unfoldable pub open_tasks : CgroupV1 → Text → Text → Sys CgroupError ℕ
open_tasks g group_id subsys_name = do
  let p = join (subsystem_path g subsys_name group_id) (bytes "tasks")
  h ← map_err (Errors.open_file p) (sys_number (open_file write_only p))
  map_err duplicate_fd (sys_number (dup h))

-- `.map(…).collect::<Result<Vec<_>, _>>()`
unfoldable pub open_all : CgroupV1 → Text → List Text → Sys CgroupError (List ℕ)
open_all g group_id [] = pure []
open_all g group_id (subsys ∷ rest) = do
  h ← open_tasks g group_id subsys
  hs ← open_all g group_id rest
  pure (h ∷ hs)

unfoldable pub create_group : CgroupV1 → Text → ResourceLimits → Sys CgroupError CgroupEnter
create_group g group_id limits = do
  create_cgroup g group_id (bytes "cpuacct")
  create_cgroup g group_id (bytes "pids")
  write_number g group_id (bytes "pids") (bytes "pids.max") limits.pids_max
  create_cgroup g group_id (bytes "memory")
  write_number g group_id (bytes "memory") (bytes "memory.swappiness") 0
  write_number g group_id (bytes "memory") (bytes "memory.limit_in_bytes") limits.memory_max
  handles ← open_all g group_id (bytes "cpuacct" ∷ bytes "memory" ∷ bytes "pids" ∷ [])
  pure (CgroupEnter.v1 handles)

unfoldable pub resource_usage : CgroupV1 → Text → Sys CgroupError InternalResourceUsageData
resource_usage g group_id = do
  time ← get_cpu_usage g group_id
  memory ← get_memory_usage g group_id
  pure (record { time = time; memory = some memory })

unfoldable pub delete_group : {E : Type 0} → CgroupV1 → Text → Sys E (Unit {0})
delete_group g group_id =
    drop_cgroup g group_id (bytes "pids" ∷ bytes "memory" ∷ bytes "cpuacct" ∷ [])
