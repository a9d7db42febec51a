-- ===== src/Limits/V2.antt =====
-- src/linux/limits/cgroup_v2.rs: the driver for the unified hierarchy.
use minion.Base.{
  ℕ, zero, suc, ◌*◌, ◌%◌, ◌==◌, Option, none, some, List, [], ◌∷◌, ◌++◌, Text, bytes, decimal,
  parse_uint, u64_limit, starts_with, length, drop, if◌then◌else◌,
}
use minion.Os.{Sys, pure, map_err, ignore, sys, sys_number, sys_text, ◌>>=◌, ◌>>◌}
use minion.Os.Calls.{
  write_file, read_to_string, create_dir_all, remove_dir, open_file, write_only, dup,
}
use minion.Options.{join, split_from}
use minion.Errors.{CgroupError, write_failed, read_failed, create_cgroup_dir, duplicate_fd}
use minion.Errors
use minion.Limits.Types.{InternalResourceUsageData, ResourceLimits}
use minion.Limits.Cgroup.{CgroupEnter}

pub record CgroupV2 : Type 0 where
  pub cgroupfs_path : Text
  pub cgroup_prefix : List Text

push_each : Text → List Text → Text
push_each p [] = p
push_each p (comp ∷ rest) = push_each (join p comp) rest

unfoldable pub get_cgroup_prefix : CgroupV2 → Text
unfolding push_each
get_cgroup_prefix g = push_each g.cgroupfs_path g.cgroup_prefix

-- `get_path_for_cgroup_unified`
unfoldable pub unified_path : CgroupV2 → Text → Text
unfolding get_cgroup_prefix
unified_path g cgroup_id = join (get_cgroup_prefix g) (bytes "sandbox." ++ cgroup_id)

unfoldable pub write_number : CgroupV2 → Text → Text → ℕ → Sys CgroupError (Unit {0})
write_number g cgroup_id file_name num =
    let path = join (unified_path g cgroup_id) file_name in
    map_err (write_failed path) (sys (write_file path (decimal num)))

unfoldable pub read_file : CgroupV2 → Text → Text → Sys CgroupError Text
read_file g cgroup_id file_name =
    let path = join (unified_path g cgroup_id) file_name in
    map_err (read_failed path) (sys_text (read_to_string path))

-- `trim_end_matches(c)`
unfoldable pub trim_end_of : ℕ → Text → Text
trim_end_of sep [] = []
trim_end_of sep (c ∷ s) = elim (trim_end_of sep s) [
  | [] ↦ if c == sep then [] else c ∷ []
  | d ∷ r ↦ c ∷ d ∷ r
]

-- `trim_start_matches(p)`: the prefix goes as often as it stands there; the fuel is the length.
unfoldable pub trim_prefixes : ℕ → Text → Text → Text
trim_prefixes zero p s = s
trim_prefixes (suc fuel) p s =
    let rest = trim_prefixes fuel p (drop (length p) s) in if starts_with s p then rest else s

unfoldable pub strip_return : Text → Text
strip_return [] = []
strip_return (c ∷ []) = if c == 13 then [] else c ∷ []
strip_return (c ∷ d ∷ s) = c ∷ strip_return (d ∷ s)

-- `str::lines`: the last piece is no line if it is empty, and one carriage return at the end goes.
unfoldable pub lines_of : List Text → List Text
unfolding strip_return
lines_of [] = []
lines_of ([] ∷ []) = []
lines_of ((c ∷ s) ∷ []) = (c ∷ s) ∷ []
lines_of (s ∷ t ∷ rest) = strip_return s ∷ lines_of (t ∷ rest)

-- What is parsed counts if it is a number; the product wraps, as in a release build.
unfoldable pub converted : ℕ → Option ℕ → ℕ
converted val none = val
converted val (some v) = v * 1000 % u64_limit

-- One round of the loop of `get_cpu_usage`.
unfoldable pub usage_line : ℕ → Text → ℕ
unfolding trim_end_of trim_prefixes converted
usage_line val line =
    if starts_with line (bytes "usage_usec")
    then converted val (
        parse_uint u64_limit
          (trim_end_of 10 (trim_prefixes (length line) (bytes "usage_usec ") line)))
    else val

unfoldable pub usage_lines : ℕ → List Text → ℕ
unfolding usage_line
usage_lines val [] = val
usage_lines val (line ∷ rest) = usage_lines (usage_line val line) rest

abbrev pub u64_max : ℕ
u64_max = 18446744073709551615

-- What `get_cpu_usage` makes of the text of `cpu.stat`.
unfoldable pub cpu_usage_of : Text → ℕ
unfolding lines_of usage_lines
cpu_usage_of stat_data = usage_lines u64_max (lines_of (split_from 10 [] stat_data))

unfoldable pub get_cpu_usage : CgroupV2 → Text → Sys CgroupError ℕ
get_cpu_usage g cgroup_id = do
  stat_data ← read_file g cgroup_id (bytes "cpu.stat")
  pure (cpu_usage_of stat_data)

unfoldable pub drop_cgroup : {E : Type 0} → CgroupV2 → Text → Sys E (Unit {0})
drop_cgroup g cgroup_id = ignore (sys (remove_dir (unified_path g cgroup_id)))

-- The parent of the group's directory is the prefix, since the group's name is one component.
unfoldable pub create_group : CgroupV2 → Text → ResourceLimits → Sys CgroupError CgroupEnter
create_group g group_id limits = do
  let cgroup_path = unified_path g group_id
  map_err (create_cgroup_dir cgroup_path) (sys (create_dir_all cgroup_path))
  ignore (
      sys (
        write_file (join (get_cgroup_prefix g) (bytes "cgroup.subtree_control"))
          (bytes "+pids +cpu +memory")))
  write_number g group_id (bytes "pids.max") limits.pids_max
  write_number g group_id (bytes "memory.max") limits.memory_max
  let tasks_file_path = join cgroup_path (bytes "cgroup.procs")
  h ← map_err (Errors.open_file tasks_file_path) (sys_number (open_file write_only tasks_file_path))
  handle ← map_err duplicate_fd (sys_number (dup h))
  pure (CgroupEnter.v2 handle)

unfoldable pub resource_usage : CgroupV2 → Text → Sys CgroupError InternalResourceUsageData
resource_usage g group_id = do
  time ← get_cpu_usage g group_id
  pure (record { time = time; memory = none })

unfoldable pub delete_group : {E : Type 0} → CgroupV2 → Text → Sys E (Unit {0})
delete_group g group_id = drop_cgroup g group_id
