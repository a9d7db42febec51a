-- ===== src/Limits/Prlimit.antt =====
-- src/linux/limits/prlimit.rs: limits per process, and usage as the zygote reports it. The map of
-- groups is an association list; a group names the sandbox's zygote slot by a number, and `slots`
-- is what the slots hold at the time of a call. The CPU limit is computed as in a release build.
use minion.Base.{
  ℕ, ◌+◌, ◌-◌, ◌/◌, ◌%◌, Bool, not, ◌&&◌, Option, none, some, List, [], ◌∷◌, Text, text_eq, ltb,
  u64_limit, if◌then◌else◌,
}
use minion.Os.{Sys, pure, fail, abort, map_err, sys, ◌>>=◌, ◌>>◌}
use minion.Os.Calls.{setrlimit, address_data, processes, cpu_seconds}
use minion.Errors.{PrlimitError, ipc, pids_limit_enforcement_impossible, sandbox_gone}
use minion.Ipc.{send, recv}
use minion.Jail.{ZygoteInfo, Codecs, get_resource_usage}
use minion.Limits.Types.{InternalResourceUsageData, ResourceLimits}

pub record Group : Type 0 where
  pub zygote : Option ℕ

pub record Prlimit : Type 0 where
  pub groups : List (Text × Group)
  pub allow_multiple_processes : Bool

pub record PrlimitEnter : Type 0 where
  pub limits : ResourceLimits

-- `HashMap::get`
unfoldable pub lookup : Text → List (Text × Group) → Option Group
lookup k [] = none
lookup k ((j, g) ∷ rest) = let more = lookup k rest in if text_eq j k then some g else more

-- `HashMap::remove`, without the result.
unfoldable pub without : Text → List (Text × Group) → List (Text × Group)
without k [] = []
without k ((j, g) ∷ rest) = let more = without k rest in if text_eq j k then more else (j, g) ∷ more

-- `HashMap::insert`, without the result.
unfoldable pub insert : Text → Group → List (Text × Group) → List (Text × Group)
unfolding without
insert k g groups = (k, g) ∷ without k groups

-- CPU time in whole seconds, rounded up.
unfoldable pub cpu_usage_limit : ℕ → ℕ
cpu_usage_limit cpu_usage = (cpu_usage + u64_limit - 1) % u64_limit / 1000000000 + 1

-- `check_access` is not implemented for this driver.
unfoldable pub check_access : PrlimitEnter → Sys ℕ (Unit {0})
check_access e = pure tt

unfoldable pub join : PrlimitEnter → Sys ℕ (Unit {0})
unfolding cpu_usage_limit
join e = do
  sys (setrlimit address_data e.limits.memory_max)
  sys (setrlimit processes e.limits.pids_max)
  sys (setrlimit cpu_seconds (cpu_usage_limit e.limits.cpu_usage))

unfoldable pub create_group :
    Prlimit → Text → ResourceLimits → Sys PrlimitError (Prlimit × PrlimitEnter)
unfolding insert lookup
create_group p group_id limits =
    if ltb 1 limits.pids_max && not p.allow_multiple_processes
    then fail pids_limit_enforcement_impossible
    else elim (lookup group_id p.groups) [
      | some prev ↦ abort
      | none ↦ pure (
        record p { groups = insert group_id (record { zygote = none }) p.groups },
        record { limits = limits },
      )
    ]

unfoldable pub delete_group : {E : Type 0} → Prlimit → Text → Sys E Prlimit
unfolding without lookup
delete_group p group_id = elim (lookup group_id p.groups) [
  | none ↦ abort
  | some deleted ↦ pure (record p { groups = without group_id p.groups })
]

unfoldable pub register_group_details : {E : Type 0} → Prlimit → Text → ℕ → Sys E Prlimit
unfolding insert lookup
register_group_details p group_id z = elim (lookup group_id p.groups) [
  | none ↦ abort
  | some group ↦ pure (record p { groups = insert group_id (record { zygote = some z }) p.groups })
]

ask : Codecs → ZygoteInfo → Sys PrlimitError InternalResourceUsageData
ask codecs zygote = do
  map_err ipc (send codecs.query zygote.sock get_resource_usage)
  info ← map_err ipc (recv codecs.usage zygote.sock)
  pure (record { memory = some info.memory; time = info.cpu })

unfoldable pub resource_usage :
    Codecs → (ℕ → Option ZygoteInfo) → Prlimit → Text → Sys PrlimitError InternalResourceUsageData
unfolding ask lookup
resource_usage codecs slots p group_id = elim (lookup group_id p.groups) [
  | none ↦ abort
  | some group ↦ elim group.zygote [
    | none ↦ abort
    | some slot ↦ elim (slots slot) [ none ↦ fail sandbox_gone | some zygote ↦ ask codecs zygote ]
  ]
]
