-- ===== src/Sandbox/Limits.antt =====
-- What the watchdog of src/linux/sandbox/watchdog.rs does about a limit, and what a client of
-- src/linux/sandbox.rs learns of it.
use mathlib.Core.List.{append_assoc}
use minion.Base.{
  ℕ, ◌-◌, ◌%◌, ◌≤◌, ◌<◌, ◌≡◌, ◌∙◌, ◌⊎◌, inl, inr, refl, ap, Bool, Bool-cases, true, false, none,
  some, List, [], ◌∷◌, ◌++◌, ◌||◌, arith, ltb, u64_limit, Text,
}
use minion.Os.{Env, History, Result, success, failure, ok, attempt, ◌>>=◌}
use minion.Os.Laws.{>>-ok, >>=-ok}
use minion.Errors.{DriverError}
use minion.Jail.{Codecs}
use minion.Limits.Types.{InternalResourceUsageData}
use minion.Limits.Driver
use minion.Limits.Driver.{Driver}
use minion.Sandbox.{
  Event, cpu_tle, real_tle, heartbeat, SandboxState, LinuxSandbox, process_flag, process_flags,
  check_cpu_tle, check_real_tle, take_zygote,
}
use minion.Sandbox.Watchdog.{Watch, Tick, current_usage, verdict, enforce, round}

-- Whether more CPU time was used than allowed. A usage that cannot be read counts as the greatest
-- number of 64 bits.
abbrev pub IsOver : ℕ → Result DriverError InternalResourceUsageData → Type 0
IsOver cpu (success usage) = cpu < usage.time
IsOver cpu (failure e) = cpu < u64_limit - 1

abbrev pub IsWithin : ℕ → Result DriverError InternalResourceUsageData → Type 0
IsWithin cpu (success usage) = usage.time ≤ cpu
IsWithin cpu (failure e) = u64_limit - 1 ≤ cpu

over :
    (cpu : ℕ) (r : Result DriverError InternalResourceUsageData)
    → cpu < current_usage r
    → IsOver cpu r
unfolding current_usage
over cpu (success usage) l = l
over cpu (failure e) l = l

within :
    (cpu : ℕ) (r : Result DriverError InternalResourceUsageData)
    → current_usage r ≤ cpu
    → IsWithin cpu r
unfolding current_usage
within cpu (success usage) l = l
within cpu (failure e) l = l

verdict_cases :
    (cpu real usage elapsed : ℕ)
    → ((cpu < usage) × (verdict cpu real usage elapsed ≡ some cpu_tle))
      ⊎ ((usage ≤ cpu) × (real < elapsed) × (verdict cpu real usage elapsed ≡ some real_tle))
      ⊎ ((usage ≤ cpu) × (elapsed ≤ real) × (verdict cpu real usage elapsed ≡ none))
unfolding verdict
verdict_cases cpu real usage elapsed = elim (Bool-cases (ltb cpu usage)) [
  | inl a ↦ inl (ground arith, rw a refl)
  | inr a ↦ elim (Bool-cases (ltb real elapsed)) [
    | inl b ↦ inr (inl (ground arith, ground arith, rw (a, b) refl))
    | inr b ↦ inr (inr (ground arith, ground arith, rw (a, b) refl))
  ]
]

-- The task after it has reported a limit: the slot is empty.
abbrev pub acted : Watch → Event → Watch
acted w ev = record { sent = w.sent ++ heartbeat ∷ ev ∷ []; zygote = none }

abbrev pub beat : Watch → Watch
beat w = record w { sent = w.sent ++ heartbeat ∷ [] }

module _ {E : Type 0} (env : Env) (w : Watch) where
  enforce-none : (h : History) → enforce {E = E} (beat w) none env h ≡ (ok (beat w, false), h)
  unfolding enforce ◌>>=◌
  enforce-none h = refl

  enforce-some :
      (ev : Event) (h h' : History)
      → take_zygote {E = E} w.zygote env h ≡ (ok tt, h')
      → enforce {E = E} (beat w) (some ev) env h ≡ (ok (acted w ev, true), h')
  unfolding enforce ◌>>=◌
  enforce-some ev h h' taken =
      >>-ok _ _ env h taken
      ∙ ap (λ s. (ok (record { sent = s; zygote = none }, true), h'))
          (append_assoc w.sent (heartbeat ∷ []) (ev ∷ []))

  -- If the sandbox is still there, the request for its usage returns, with a usage or an error, and
  -- the zygote in the slot, if any, can be dropped, then a round of the watchdog sends a heartbeat
  -- and does one of three things: it reports CPU time and ends, with the slot empty, if more was
  -- used than allowed or the usage cannot be read (unless the limit is the greatest number); it
  -- reports wall-clock time and ends in the same way if that alone is exceeded, by the elapsed
  -- nanoseconds modulo 2 ^ 64; or neither is exceeded and it goes on.
  pub round_exact :
      (codecs : Codecs) (driver : Driver) (jail_id : Text) (cpu real : ℕ) (t : Tick)
      (usage : Result DriverError InternalResourceUsageData) (h h' h'' : History)
      → t.connected ≡ true
      → attempt {F = E} (Driver.resource_usage codecs (λ slot. w.zygote) driver jail_id) env h
        ≡ (ok usage, h')
      → take_zygote {E = E} w.zygote env h' ≡ (ok tt, h'')
      → (IsOver cpu usage
          × (round codecs driver jail_id cpu real {E = E} t w env h
              ≡ (ok (acted w cpu_tle, true), h'')))
        ⊎ (IsWithin cpu usage
            × (real < t.elapsed % u64_limit)
            × (round codecs driver jail_id cpu real {E = E} t w env h
                ≡ (ok (acted w real_tle, true), h'')))
        ⊎ (IsWithin cpu usage
            × (t.elapsed % u64_limit ≤ real)
            × (round codecs driver jail_id cpu real {E = E} t w env h ≡ (ok (beat w, false), h')))
  unfolding round
  round_exact codecs driver jail_id cpu real t usage h h' h'' connected used taken =
      let now = current_usage usage in
      let elapsed = t.elapsed % u64_limit in
      let start : round codecs driver jail_id cpu real {E = E} t w env h
          ≡ enforce {E = E} (beat w) (verdict cpu real now elapsed) env h' =
        rw connected (>>=-ok _ _ env h used) in
      elim (verdict_cases cpu real now elapsed) [
        | inl (a, v) ↦ inl (over cpu usage a, start ∙ rw v (enforce-some cpu_tle h' h'' taken))
        | inr (inl (a, b, v)) ↦
            inr (inl (within cpu usage a, b, start ∙ rw v (enforce-some real_tle h' h'' taken)))
        | inr (inr (a, b, v)) ↦ inr (inr (within cpu usage a, b, start ∙ rw v (enforce-none h')))
      ]

-- Whether an event of a kind waits in the queue.
abbrev pub has_cpu : List Event → Bool
has_cpu [] = false
has_cpu (cpu_tle ∷ rest) = true
has_cpu (ev ∷ rest) = has_cpu rest

abbrev pub has_real : List Event → Bool
has_real [] = false
has_real (real_tle ∷ rest) = true
has_real (ev ∷ rest) = has_real rest

process_flags-cpu :
    (s : SandboxState) (evs : List Event)
    → (process_flags s evs).was_cpu_tle ≡ s.was_cpu_tle || has_cpu evs
unfolding process_flags
process_flags-cpu s [] = ground arith
process_flags-cpu s (cpu_tle ∷ rest) =
    ground (arith, process_flags-cpu (process_flag s cpu_tle) rest)
process_flags-cpu s (real_tle ∷ rest) = process_flags-cpu (process_flag s real_tle) rest
process_flags-cpu s (heartbeat ∷ rest) = process_flags-cpu s rest

process_flags-real :
    (s : SandboxState) (evs : List Event)
    → (process_flags s evs).was_wall_tle ≡ s.was_wall_tle || has_real evs
unfolding process_flags
process_flags-real s [] = ground arith
process_flags-real s (cpu_tle ∷ rest) = process_flags-real (process_flag s cpu_tle) rest
process_flags-real s (real_tle ∷ rest) =
    ground (arith, process_flags-real (process_flag s real_tle) rest)
process_flags-real s (heartbeat ∷ rest) = process_flags-real s rest

-- Each check answers whether its limit was reported before or waits in the queue. It empties the
-- queue and keeps both answers for later checks.
pub check_tle_exact :
    (s : LinuxSandbox)
    → ((check_cpu_tle s).1 ≡ s.state.was_cpu_tle || has_cpu s.watchdog_chan)
      × ((check_real_tle s).1 ≡ s.state.was_wall_tle || has_real s.watchdog_chan)
      × ((check_cpu_tle s).0 ≡ (check_real_tle s).0)
      × ((check_cpu_tle s).0.watchdog_chan ≡ [])
      × ((check_real_tle (check_cpu_tle s).0).1 ≡ (check_real_tle s).1)
      × ((check_cpu_tle (check_real_tle s).0).1 ≡ (check_cpu_tle s).1)
unfolding check_cpu_tle check_real_tle
check_tle_exact s = (
  process_flags-cpu s.state s.watchdog_chan,
  process_flags-real s.state s.watchdog_chan,
  refl,
  refl,
  refl,
  refl,
)
