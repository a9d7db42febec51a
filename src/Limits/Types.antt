-- ===== src/Limits/Types.antt =====
-- src/linux/limits.rs: the data that every driver shares.
use minion.Base.{ℕ, Option}

pub record InternalResourceUsageData : Type 0 where
  pub time : ℕ
  pub memory : Option ℕ

pub record ResourceLimits : Type 0 where
  pub pids_max : ℕ
  pub memory_max : ℕ
  pub cpu_usage : ℕ
