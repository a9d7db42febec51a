-- ===== src/Limits/Configs.antt =====
-- src/linux/limits.rs: which driver configurations the settings ask to try, in order.
use minion.Base.{not, List, [], ◌∷◌, ◌++◌, if◌then◌else◌}
use minion.Settings.{Settings, ResourceDriverKind, cgroup_v1, cgroup_v2, cgroup_auto, prlimit, auto}
use minion.Errors.{RawSettings, CgroupVersion, v1, v2}

abbrev pub cgroup_config : Settings → CgroupVersion → RawSettings
cgroup_config s version = RawSettings.cgroup s.cgroup.name_prefix s.cgroup.mount version

-- What a kind that is no combination of others pushes.
abbrev pub prlimit_config : Settings → RawSettings
prlimit_config s = RawSettings.prlimit (not s.rootless)

abbrev push_auto : Settings → List RawSettings → List RawSettings
push_auto s out = (out ++ cgroup_config s v1 ∷ []) ++ cgroup_config s v2 ∷ []

-- `process_driver_kind`, with the recursive calls on fixed kinds written out.
unfoldable pub process_driver_kind :
    Settings → List RawSettings → ResourceDriverKind → List RawSettings
process_driver_kind s out cgroup_v1 = out ++ cgroup_config s v1 ∷ []
process_driver_kind s out cgroup_v2 = out ++ cgroup_config s v2 ∷ []
process_driver_kind s out cgroup_auto = push_auto s out
process_driver_kind s out prlimit = out ++ prlimit_config s ∷ []
process_driver_kind s out (auto allow_dangerous) =
    if allow_dangerous then push_auto s out ++ prlimit_config s ∷ [] else push_auto s out

-- The loop of `Driver::new` over the kinds of the settings.
unfoldable pub process_kinds :
    Settings → List RawSettings → List ResourceDriverKind → List RawSettings
unfolding process_driver_kind
process_kinds s out [] = out
process_kinds s out (kind ∷ rest) = process_kinds s (process_driver_kind s out kind) rest
