-- ===== src/Settings.antt =====
-- src/linux.rs: the settings of the Linux backend and their defaults. The environment variable
-- and the effective user of the process are arguments.
use minion.Base.{ℕ, Bool, false, not, Option, none, some, List, [], ◌∷◌, Text, bytes}

pub record UserIdBounds : Type 0 where
  pub low : ℕ
  pub high : ℕ

unfoldable pub default_bounds : UserIdBounds
default_bounds = record { low = 100000; high = 200000 }

pub record CgroupSettings : Type 0 where
  pub name_prefix : Text
  pub mount : Text

-- The argument is the variable `MINION_CGROUPFS`.
unfoldable pub default_cgroup : Option Text → CgroupSettings
default_cgroup var = record {
  name_prefix = bytes "/minion";
  mount = elim var [ none ↦ bytes "/sys/fs/cgroup" | some path ↦ path ];
}

pub data ResourceDriverKind : Type 0 where
  cgroup_v1 cgroup_v2 cgroup_auto prlimit : ResourceDriverKind
  auto : Bool → ResourceDriverKind

pub data SeccompPolicy : Type 0 where
  unrestricted deny_dangerous pure_policy : SeccompPolicy
  manual : Text → SeccompPolicy

unfoldable pub default_policy : SeccompPolicy
default_policy = deny_dangerous

pub record Settings : Type 0 where
  pub allow_unsupported_mount_namespace : Bool
  pub cgroup : CgroupSettings
  pub resource_drivers : List ResourceDriverKind
  pub rootless : Bool
  pub uid : UserIdBounds
  pub seccomp : SeccompPolicy

-- `Settings::default`, from the variable and whether the effective user is root.
unfoldable pub default_settings : Option Text → Bool → Settings
unfolding default_bounds default_cgroup default_policy
default_settings var have_root = record {
  allow_unsupported_mount_namespace = false;
  cgroup = default_cgroup var;
  resource_drivers = auto false ∷ [];
  rootless = not have_root;
  uid = default_bounds;
  seccomp = default_policy;
}

-- `Settings::new`
abbrev pub new : Option Text → Bool → Settings
new var have_root = default_settings var have_root
