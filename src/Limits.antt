-- ===== src/Limits.antt =====
-- src/linux/limits.rs and the drivers below src/linux/limits: how resource limits are enforced.
-- `Types` has the shared data, `Cgroup`, `V1`, `V2` and `Prlimit` the implementations, `Driver` the
-- choice between them; the other modules hold what is proved of them.
pub mod Types
pub mod Cgroup
pub mod V1
pub mod V2
pub mod Prlimit
pub mod Configs
pub mod Driver
pub mod Seconds
pub mod Selection
pub mod Accounting
pub mod Attempts
pub mod First
mod Tests
