-- ===== src/Limits/Tests.antt =====
-- The theorems on src/linux/limits.rs at concrete settings.
use minion.Limits.Accounting.{Stat, IsStat, IsPlain, stat_text, cpu_usage_of-stat_text}
use minion.Base.{
  Bool, not, ◌&&◌, ◌==◌, List, Text, ◌≡◌, starts_with, text_eq, ◌≤◌, ◌<◌, ◌*◌, ◌+◌, refl, true,
  none, some, bytes, [], ◌∷◌, ◌++◌, All, arith, decimal,
}
use minion.Os.{Env, err, ◌>>=◌, ◌>>◌}
use minion.Options.Paths.{join, components}
use minion.Limits.V1
use minion.Limits.V2
use minion.Limits.Prlimit
use minion.Errors
use minion.Errors.{
  Error, DriverError, RawSettings, CgroupVersion, v1, v2, create_cgroup_dir, Attempts, no_attempts,
}
use minion.Os.Calls.{create_dir_all}
use minion.Settings
use minion.Settings.{Settings, default_settings, auto, cgroup_v1, cgroup_v2}
use minion.Os.Samples.{quiet}
use minion.Limits.Configs.{process_kinds}
use minion.Limits.Driver
use minion.Limits.Driver.{Driver}
use minion.Limits.Prlimit.{cpu_usage_limit}
use minion.Limits.Seconds.{cpu_usage_limit_rounds_up}
use minion.Limits.First.{Selects, new-Selects}
use minion.Limits.Selection.{tried, new-Reports}

abbrev settings : Settings
settings = default_settings none true

cpu_usage_limit_rounds_up_example :
    (1500000000 ≤ cpu_usage_limit 1500000000 * 1000000000)
    × (cpu_usage_limit 1500000000 * 1000000000 < 1500000000 + 1000000000)
cpu_usage_limit_rounds_up_example = cpu_usage_limit_rounds_up 1500000000 (omega arith) (omega arith)

abbrev weak : Settings
weak = record settings { resource_drivers = cgroup_v2 ∷ Settings.prlimit ∷ [] }

-- No directory can be made, so no group.
abbrev no_groups : Env
no_groups = record quiet { status = λ h c. elim c [ create_dir_all p ↦ some 13 | _ ↦ none ] }

-- What is left without groups: both hierarchies are tried, and neither works.
abbrev strict : Settings
strict = record settings { resource_drivers = cgroup_v1 ∷ cgroup_v2 ∷ [] }

abbrev not_made : Text → CgroupVersion → Text → Attempts → Attempts
not_made group version dir rest =
    Errors.attempt (RawSettings.cgroup (bytes "/minion") (bytes "/sys/fs/cgroup") version)
      (Error.resource_limits (DriverError.cgroup (create_cgroup_dir (dir ++ group) 13))) rest

abbrev none_works : Error
none_works = Error.select_driver_impl (
    not_made (bytes "/minion/sandbox.minion-cgroup-access-check-0") v1
      (bytes "/sys/fs/cgroup/cpuacct")
      (not_made (bytes "/minion/sandbox.minion-cgroup-access-check-1") v2 (bytes "/sys/fs/cgroup")
        no_attempts))

strict-fails : (Driver.new (λ n. decimal n) strict no_groups []).0 ≡ err none_works
unfolding Driver.new ◌>>=◌ V1.create_group V2.create_group ◌>>◌ decimal default_settings
    V1.create_cgroup V1.subsystem_path V2.unified_path join components text_eq
strict-fails = refl

new-Reports_example :
    (a : Attempts) × (none_works ≡ Error.select_driver_impl a)
    × (tried a ≡ process_kinds strict [] strict.resource_drivers)
new-Reports_example = new-Reports (λ n. decimal n) strict no_groups [] none_works strict-fails

abbrev second : Driver
second = Driver.prlimit (record {
  groups = (bytes "minion-cgroup-access-check-1", record { zygote = none }) ∷ [];
  allow_multiple_processes = true;
})

new-Selects_example :
    Selects (λ n. decimal n) no_groups second 0 (process_kinds weak [] weak.resource_drivers) []
unfolding Driver.new ◌>>=◌ V2.create_group ◌>>◌ Prlimit.create_group decimal default_settings
new-Selects_example = new-Selects (λ n. decimal n) weak no_groups [] second refl

abbrev is_plain : Text → Bool
is_plain [] = true
is_plain (c ∷ s) = not (c == 10) && not (c == 13) && is_plain s

plain : (s : Text) → is_plain s ≡ true → All IsPlain s
plain [] e = tt
plain (c ∷ s) e = ((ground arith, ground arith), plain s (ground arith))

abbrev stats : List Stat
stats = (bytes "usage_usec", 2500) ∷ (bytes "user_usec", 2000) ∷ (bytes "usage", 1) ∷ []

stats-IsStat : All IsStat stats
unfolding starts_with text_eq decimal
stats-IsStat = (
  (plain (bytes "usage_usec") refl, omega arith, refl),
  (
    (plain (bytes "user_usec") refl, omega arith, refl),
    ((plain (bytes "usage") refl, omega arith, refl), tt),
  ),
)

cpu_usage_of-stat_text_example : V2.cpu_usage_of (stat_text stats) ≡ 2500000
unfolding starts_with text_eq decimal
cpu_usage_of-stat_text_example = cpu_usage_of-stat_text stats stats-IsStat
