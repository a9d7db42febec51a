-- ===== src/Sandbox/Kills.antt =====
-- How often the watchdog of src/linux/sandbox/watchdog.rs acts.
use minion.Base.{ℕ, suc, ◌≡◌, ◌⊎◌, Bool, true, none, some, Option, List, [], ◌∷◌, ◌++◌}
use minion.Os.Ensures.{Ensures}
use minion.Limits.Driver.{Driver}
use minion.Sandbox.{Event, heartbeat}
use minion.Sandbox.Watchdog.{Watch}

-- How many reports of an exceeded limit a list of events has.
abbrev pub reports : List Event → ℕ
reports [] = 0
reports (heartbeat ∷ rest) = reports rest
reports (ev ∷ rest) = suc (reports rest)

-- From `w`, either nothing was reported and the slot is as before, or one report was sent, the slot
-- is empty and the task ended.
abbrev pub ActsOnce : Watch → Watch × Bool → Type 0
ActsOnce w (w', ended) =
    ((reports w'.sent ≡ reports w.sent) × (w'.zygote ≡ w.zygote))
    ⊎ ((reports w'.sent ≡ suc (reports w.sent)) × (w'.zygote ≡ none) × (ended ≡ true))

abbrev SomeVerdict : Option Event → Type 0
SomeVerdict none = Unit
SomeVerdict (some heartbeat) = ⊥
SomeVerdict (some ev) = Unit

abbrev beat : Watch → Watch
beat w = record w { sent = w.sent ++ heartbeat ∷ [] }
