-- ===== src/Limits/Seconds.antt =====
-- The CPU limit of src/linux/limits/prlimit.rs, and the creation and use of a group of that driver.
use minion.Base.{ℕ, ◌+◌, ◌*◌, ◌≤◌, ◌<◌, ◌≡◌, refl, arith, u64_limit}
use minion.Limits.Prlimit.{cpu_usage_limit}

-- The limit in seconds is the one allowed in nanoseconds, rounded up, for every limit but zero.
pub cpu_usage_limit_rounds_up :
    (n : ℕ)
    → 0 < n
    → n < u64_limit
    → (n ≤ cpu_usage_limit n * 1000000000) × (cpu_usage_limit n * 1000000000 < n + 1000000000)
unfolding cpu_usage_limit
cpu_usage_limit_rounds_up n p h = omega arith

-- A limit of zero wraps around to the largest number of seconds: more than five hundred years.
pub cpu_usage_limit-zero : cpu_usage_limit 0 ≡ 18446744074
unfolding cpu_usage_limit
cpu_usage_limit-zero = refl
