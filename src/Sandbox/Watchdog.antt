-- ===== src/Sandbox/Watchdog.antt =====
-- src/linux/sandbox/watchdog.rs: the task that watches the limits of one sandbox. Each round comes
-- after a sleep; what the environment decides about it is a `Tick`.
use minion.Base.{
  ℕ, ◌%◌, Bool, true, false, not, ◌&&◌, Option, none, some, List, [], ◌∷◌, ◌++◌, Text, ltb,
  u64_limit, if◌then◌else◌,
}
use minion.Os.{Sys, Result, success, failure, pure, attempt, ◌>>=◌, ◌>>◌}
use minion.Errors.{DriverError}
use minion.Jail.{ZygoteInfo, Codecs}
use minion.Limits.Types.{InternalResourceUsageData}
use minion.Limits.Driver
use minion.Limits.Driver.{Driver}
use minion.Limits.V2.{u64_max}
use minion.Sandbox.{Event, cpu_tle, real_tle, heartbeat, take_zygote}

-- Whether the sandbox still holds the receiver, and the nanoseconds since the start.
pub record Tick : Type 0 where
  pub connected : Bool
  pub elapsed : ℕ

pub record Watch : Type 0 where
  pub sent : List Event
  pub zygote : Option ZygoteInfo

-- A failure to get the usage counts as the largest usage.
unfoldable pub current_usage : Result DriverError InternalResourceUsageData → ℕ
current_usage (success usage) = usage.time
current_usage (failure e) = u64_max

-- What is sent for a usage and an elapsed time: CPU time goes first; none if neither is exceeded.
unfoldable pub verdict : ℕ → ℕ → ℕ → ℕ → Option Event
verdict cpu_time_limit real_time_limit usage elapsed =
    let was_cpu_tle = ltb cpu_time_limit usage in
    let was_real_tle = ltb real_time_limit elapsed in
    if not was_cpu_tle && not was_real_tle
    then none
    else if was_cpu_tle
    then some cpu_tle
    else some real_tle

-- What follows the verdict: nothing, or the event is sent and the slot is emptied.
unfoldable pub enforce : {E : Type 0} → Watch → Option Event → Sys E (Watch × Bool)
enforce w none = pure (w, false)
enforce w (some ev) =
    take_zygote w.zygote >> pure (record { sent = w.sent ++ ev ∷ []; zygote = none }, true)

module _ (codecs : Codecs) (driver : Driver) (jail_id : Text)
    (cpu_time_limit real_time_limit : ℕ) where
  -- One round of the loop, and whether the loop ends with it.
  unfoldable pub round : {E : Type 0} → Tick → Watch → Sys E (Watch × Bool)
  unfolding current_usage verdict enforce
  round t w =
      if t.connected
      then (do
        usage ← attempt (Driver.resource_usage codecs (λ slot. w.zygote) driver jail_id)
        enforce (record w { sent = w.sent ++ heartbeat ∷ [] })
            (verdict cpu_time_limit real_time_limit (current_usage usage) (t.elapsed % u64_limit)))
      else pure (w, true)

  -- The loop over the ticks that the environment gives; the flag is whether it ended by itself.
  unfoldable pub watchdog : {E : Type 0} → List Tick → Watch → Sys E (Watch × Bool)
  unfolding round
  watchdog [] w = pure (w, false)
  watchdog (t ∷ rest) w = do
    (w', ended) ← round t w
    elim ended [ true ↦ pure (w', true) | false ↦ watchdog rest w' ]
