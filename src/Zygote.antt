-- ===== src/Zygote.antt =====
-- src/linux/zygote.rs and the files below src/linux/zygote: the long-running process that is the
-- root of a sandbox's namespaces and starts jobs in it. `Exec` is the child of a job, `Setup` what
-- the zygote does before it serves requests, `Loop` and
-- `Serve` its request loop, `Start` its creation; the
-- other modules hold what is proved of them. Log output is not modelled.
pub mod Exec
pub mod Setup
pub mod Panics
pub mod Loop
pub mod Serve
pub mod Confined
pub mod Start
pub mod Diagnostics
pub mod Ancestors
pub mod Listing
pub mod Descriptors
pub mod Joins
pub mod Job
pub mod Table
pub mod Inherited
pub mod Launch
pub mod Tasks
pub mod Legacy
pub mod Release
pub mod Exits
mod Tests
