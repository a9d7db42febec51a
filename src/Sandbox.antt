-- ===== src/Sandbox.antt =====
-- src/linux/sandbox.rs and src/linux/sandbox/watchdog.rs: a sandbox in the caller's process. The
-- zygote slot, the event queue and the flags are fields of the sandbox; the driver and the
-- allocator of identifiers are shared, so the operations that change them return them.
pub mod Watchdog
pub mod Create
pub mod Outside
pub mod Jobs
pub mod Answers
pub mod Limits
pub mod Uid
pub mod Kills
mod Tests
use mathlib.Core.Option
use minion.Base.{
  ℕ, Bool, true, false, Option, none, some, List, [], ◌∷◌, Text, bytes, text_eq, if◌then◌else◌,
}
use minion.Os.{Sys, Result, success, failure, pure, abort, attempt, ignore, map_err, ◌>>=◌, ◌>>◌}
use minion.Options.{SandboxOptions, SharedItem, ResourceUsageData}
use minion.Errors.{Error}
use minion.Uids.{UidAllocator, deallocate}
use minion.Jail.{ZygoteInfo, LinuxSharedItem, SharedItemFlags, Codecs, drop_zygote}
use minion.Limits.Driver
use minion.Limits.Driver.{Driver}

pub data Event : Type 0 where
  cpu_tle real_tle heartbeat : Event

pub record SandboxState : Type 0 where
  pub was_cpu_tle : Bool
  pub was_wall_tle : Bool

unfoldable pub process_flag : SandboxState → Event → SandboxState
process_flag s cpu_tle = record s { was_cpu_tle = true }
process_flag s real_tle = record s { was_wall_tle = true }
process_flag s heartbeat = s

pub record LinuxSandbox : Type 0 where
  pub id : Text
  pub options : SandboxOptions
  pub zygote : Option ZygoteInfo
  pub state : SandboxState
  pub watchdog_chan : List Event
  pub dealloc_uid : Option ℕ

unfoldable pub process_flags : SandboxState → List Event → SandboxState
unfolding process_flag
process_flags s [] = s
process_flags s (ev ∷ rest) = process_flags (process_flag s ev) rest

-- `poll_state`: every event that waits is taken from the queue.
unfoldable pub poll_state : LinuxSandbox → LinuxSandbox
unfolding process_flags
poll_state s = record s { state = process_flags s.state s.watchdog_chan; watchdog_chan = [] }

unfoldable pub check_cpu_tle : LinuxSandbox → LinuxSandbox × Bool
unfolding poll_state
check_cpu_tle s = (poll_state s, (poll_state s).state.was_cpu_tle)

unfoldable pub check_real_tle : LinuxSandbox → LinuxSandbox × Bool
unfolding poll_state
check_real_tle s = (poll_state s, (poll_state s).state.was_wall_tle)

-- What the slot yields, if a zygote is in it; `f` only reads.
unfoldable pub with_zygote : {R : Type 0} → LinuxSandbox → (ZygoteInfo → R) → Option R
with_zygote s f = Option.map f s.zygote

-- `Sandbox::debug_info`: the only member of a JSON object and its value, `none` for `null`.
unfoldable pub debug_info : LinuxSandbox → Text × Option ℕ
unfolding with_zygote
debug_info s = (bytes "zygotePid", with_zygote s (λ z. z.pid))

unfoldable pub take_zygote : {E : Type 0} → Option ZygoteInfo → Sys E (Unit {0})
take_zygote none = pure tt
take_zygote (some z) = drop_zygote z

-- `Sandbox::kill`: the zygote's information is taken out of the slot and dropped.
unfoldable pub kill : {E : Type 0} → LinuxSandbox → Sys E LinuxSandbox
unfolding take_zygote
kill s = take_zygote s.zygote >> pure (record s { zygote = none })

unfoldable pub resource_usage : Codecs → Driver → LinuxSandbox → Sys Error ResourceUsageData
resource_usage codecs driver s = do
  usage ←
      map_err Error.resource_limits (Driver.resource_usage codecs (λ slot. s.zygote) driver s.id)
  pure (record { time = some usage.time; memory = usage.memory })

-- The loop of `convert_shared_item` over the flags.
unfoldable pub convert_flags : SharedItemFlags → List Text → Result Error SharedItemFlags
convert_flags flags [] = success flags
convert_flags flags (f ∷ rest) =
    let more = convert_flags (record flags { recursive = true }) rest in
    if text_eq f (bytes "recursive") then more else failure (Error.invalid_shared_item_flag f)

unfoldable pub convert_shared_item : SharedItem → Result Error LinuxSharedItem
unfolding convert_flags
convert_shared_item item = elim (convert_flags (record { recursive = false }) item.flags) [
  | failure e ↦ failure e
  | success flags ↦
      success (record { src = item.src; dest = item.dest; kind = item.kind; flags = flags })
]

-- `.map(convert_shared_item).collect::<Result<Vec<_>, _>>()`
unfoldable pub convert_shared_items : List SharedItem → Result Error (List LinuxSharedItem)
unfolding convert_shared_item
convert_shared_items [] = success []
convert_shared_items (x ∷ rest) = elim (convert_shared_item x) [
  | failure e ↦ failure e
  | success y ↦ elim (convert_shared_items rest) [
    | failure e ↦ failure e
    | success ys ↦ success (y ∷ ys)
  ]
]

-- What `Drop for LinuxSandbox` does first: the identifier goes back, and a double release panics.
unfoldable pub reclaim_uid : {E : Type 0} → Option ℕ → UidAllocator → Sys E UidAllocator
reclaim_uid none uids = pure uids
reclaim_uid (some uid) uids = elim (deallocate uids uid) [ none ↦ abort | some uids' ↦ pure uids' ]

remaining : {E : Type 0} → Driver → Result Error Driver → Sys E Driver
remaining driver (success driver') = pure driver'
remaining driver (failure e) = pure driver

-- `Drop for LinuxSandbox`; `keep_cgroups` is whether `MINION_DEBUG_KEEP_CGROUPS` is set. The
-- allocator and the driver after it.
unfoldable pub drop :
    {E : Type 0} → Bool → LinuxSandbox → UidAllocator → Driver → Sys E (UidAllocator × Driver)
unfolding reclaim_uid kill remaining
drop keep_cgroups s uids driver = do
  uids' ← reclaim_uid s.dealloc_uid uids
  s' ← kill s
  driver' ←
      if keep_cgroups
      then pure driver
      else (attempt (map_err Error.resource_limits (Driver.delete_group driver s.id))
          >>= remaining driver)
  pure (uids', driver')
