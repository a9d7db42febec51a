-- ===== src/Sandbox/Jobs.antt =====
-- src/linux/sandbox.rs and src/linux/wait.rs: how the caller's process asks the zygote for a job and
-- for an exit code.
use minion.Base.{ℕ, Option, none, some, List, [], ◌∷◌, ◌++◌}
use minion.Os.{
  Sys, Result, success, failure, pure, abort, attempt, lift, map_err, ignore, ◌>>=◌, ◌>>◌,
}
use minion.Options.{ExitCode, killed}
use minion.Errors.{Error, IpcError}
use minion.Fds.{drop_fds}
use minion.Ipc.{send, recv, send_fds, recv_fds}
use minion.Jail.{JobQuery, JobStartupInfo, ZygoteInfo, Codecs, spawn, get_exit_code}

pub record ExtendedJobQuery : Type 0 where
  pub job_query : JobQuery
  pub stdin : Option ℕ
  pub stdout : Option ℕ
  pub stderr : Option ℕ
  pub extra : List ℕ

abbrev some_of : Option ℕ → List ℕ
some_of none = []
some_of (some fd) = fd ∷ []

-- `vec![stdin, stdout, stderr].into_iter().flatten()`, then the extra descriptors.
unfoldable pub job_fds : ExtendedJobQuery → List ℕ
job_fds q = (some_of q.stdin ++ some_of q.stdout ++ some_of q.stderr) ++ q.extra

first : List ℕ → Sys Error ℕ
first [] = abort
first (fd ∷ rest) = pure fd

module _ (codecs : Codecs) where
  unfoldable pub request_job : ZygoteInfo → ExtendedJobQuery → Sys Error (JobStartupInfo × ℕ)
  unfolding first
  request_job zyg q = do
    map_err Error.sandbox_ipc (send codecs.query zyg.sock (spawn q.job_query))
    map_err Error.sandbox_ipc (send_fds zyg.sock (job_fds q))
    job_startup_info ← map_err Error.sandbox_ipc (recv codecs.startup zyg.sock)
    fds ← map_err Error.sandbox_ipc (recv_fds zyg.sock 1)
    fd ← first fds
    pure (job_startup_info, fd)

  -- The query owns its descriptors, and drops them on every way out.
  unfoldable pub spawn_job : Option ZygoteInfo → ExtendedJobQuery → Sys Error (JobStartupInfo × ℕ)
  unfolding request_job
  spawn_job none q = drop_fds (job_fds q) >> lift (failure Error.sandbox_gone)
  spawn_job (some zyg) q = do
    result ← attempt (request_job zyg q)
    drop_fds (job_fds q)
    lift result

  unfoldable pub received_code : {E : Type 0} → Result IpcError ℕ → Sys E ExitCode
  received_code (success ec) = pure (record { code = ec })
  received_code (failure e) = pure killed

  -- A zygote that is gone or does not answer stands for a killed process.
  unfoldable pub get_code : {E : Type 0} → Option ZygoteInfo → ℕ → Sys E ExitCode
  unfolding received_code
  get_code none pid = pure killed
  get_code (some zyg) pid = do
    ignore (send codecs.query zyg.sock (get_exit_code (record { pid = pid })))
    attempt (recv codecs.exit_code zyg.sock) >>= received_code

  -- `WaitFuture::poll`: `ready` is what polling the descriptor found, none while it is pending.
  unfoldable pub poll :
      {E : Type 0}
      → Option (Result ℕ (Unit {0}))
      → Option ZygoteInfo
      → ℕ
      → Sys E (Option (Result Error ExitCode))
  unfolding get_code
  poll none zyg pid = pure none
  poll (some (failure errno)) zyg pid = pure (some (failure (Error.io errno)))
  poll (some (success ready)) zyg pid = do code ← get_code zyg pid; pure (some (success code))
