-- ===== src/Zygote/Loop.antt =====
-- src/linux/zygote/main_loop.rs: the zygote's request loop and its table of tasks. `pidfd` is what
-- `pidfd_supported` found. A loop has fuel, one unit for each round; `none` means that it ran out.
use minion.Base.{
  ℕ, zero, suc, ◌+◌, ◌*◌, ◌%◌, ◌==◌, Bool, true, false, Option, none, some, List, [], ◌∷◌, ◌++◌,
  bytes, length, take, drop, u64_limit, if◌then◌else◌,
}
use mathlib.Core.List.{reverse}
use minion.Os.{
  Sys, WaitStatus, exited, signaled, still_alive, pure, abort, lift, map_err, attempt, unwrap,
  sys_number, sys_pair, sys_wait, ◌>>=◌, ◌>>◌,
}
use minion.Util.{pidfd_open}
use minion.Os.Calls.{dup, pipe_cloexec, waitpid, write}
use minion.Options.{signalled}
use minion.Errors.{Error}
use minion.Fds.{drop_fd}
use minion.Ipc.{send, send_fds, recv_fds}
use minion.Jail.{JailOptions, JobQuery, Codecs}
use minion.Limits.Driver.{OpaqueEnterHandle}
use minion.Zygote.Exec.{Stdio, JobOptions, spawn_job}

abbrev pub bad_query : ℕ
bad_query = 0xBAD

pub record Task : Type 0 where
  pub pid : ℕ
  pub notify : Option ℕ
  pub exit_code : Option ℕ

pub record Zygote : Type 0 where
  pub tasks : List Task
  pub sock : ℕ
  pub jail_options : JailOptions
  pub handle : OpaqueEnterHandle
  pub pidfd : Bool

pub record SpawnFds : Type 0 where
  pub stdio : Stdio
  pub extra : List ℕ

unfoldable pub rotate_left : ℕ → List ℕ → List ℕ
rotate_left k xs = drop k xs ++ take k xs

-- `Stdio::from_fd_array`
abbrev from_fd_array : ℕ → ℕ → ℕ → Stdio
from_fd_array stdin stdout stderr = record { stdin = stdin; stdout = stdout; stderr = stderr }

-- Three `pop`s of the rotated list, the newest first.
unfoldable pub pop_three : List ℕ → Option SpawnFds
pop_three (c ∷ b ∷ a ∷ rest) = some (record { stdio = from_fd_array a b c; extra = reverse rest })
pop_three _ = none

-- How the descriptors that came with a job are told apart; `none` is a panic.
unfoldable pub split_fds : List ℕ → Option SpawnFds
unfolding rotate_left pop_three
split_fds child_fds = pop_three (reverse (rotate_left 3 child_fds))

-- `*f = f.duplicate_with_inheritance().expect(…)`, which drops the old descriptor.
unfoldable pub duplicate_each : {E : Type 0} → List ℕ → Sys E (List ℕ)
duplicate_each [] = pure []
duplicate_each (fd ∷ rest) = do
  new ← unwrap (sys_number (dup fd))
  drop_fd fd
  more ← duplicate_each rest
  pure (new ∷ more)

unfoldable pub zip : List ℕ → List ℕ → List (ℕ × ℕ)
zip (x ∷ xs) (y ∷ ys) = (x, y) ∷ zip xs ys
zip _ _ = []

unfoldable pub fetched : {E : Type 0} → Option SpawnFds → Sys E SpawnFds
fetched none = abort
fetched (some s) = pure s

unfoldable pub duplicated : {E : Type 0} → SpawnFds → Sys E SpawnFds
unfolding duplicate_each
duplicated s = do
  stdin ← unwrap (sys_number (dup s.stdio.stdin))
  drop_fd s.stdio.stdin
  stdout ← unwrap (sys_number (dup s.stdio.stdout))
  drop_fd s.stdio.stdout
  stderr ← unwrap (sys_number (dup s.stdio.stderr))
  drop_fd s.stdio.stderr
  extra ← duplicate_each s.extra
  pure
      (record { stdio = record { stdin = stdin; stdout = stdout; stderr = stderr }; extra = extra })

abbrev pub job_options : JobQuery → SpawnFds → JobOptions
job_options q s = record {
  exe = q.image_path;
  argv = q.argv;
  env = q.environment;
  stdio = s.stdio;
  extra = zip q.extra_fds s.extra;
  pwd = q.pwd;
}

abbrev is_some : Option ℕ → Bool
is_some none = false
is_some (some a) = true

-- What the task is notified through, and what the other side waits on.
unfoldable pub notification : {E : Type 0} → Bool → ℕ → Sys E (Option ℕ × ℕ)
notification pidfd pid =
    if pidfd
    then (do event ← unwrap (pidfd_open pid); pure (none, event))
    else (do ends ← unwrap (sys_pair pipe_cloexec); pure (some ends.1, ends.0))

module _ (codecs : Codecs) where
  unfoldable pub process_spawn_query : Zygote → JobQuery → Sys Error Zygote
  unfolding fetched duplicated notification
  process_spawn_query z q = do
    child_fds ← unwrap (recv_fds z.sock (3 + length q.extra_fds))
    received ← fetched (split_fds child_fds)
    s ← duplicated received
    if length s.extra == length q.extra_fds then pure tt else abort
    startup ← unwrap (
        spawn_job (job_options q s) (is_some z.jail_options.sandbox_uid) z.handle
          z.jail_options.seccomp)
    (notify, event) ← notification z.pidfd startup.pid
    unwrap (send codecs.startup z.sock startup)
    unwrap (send_fds z.sock (event ∷ []))
    drop_fd event
    pure (record z {
      tasks = z.tasks ++ record { pid = startup.pid; notify = notify; exit_code = none } ∷ [];
    })

-- The task that `position` and `swap_remove` take out, and the tasks left: the last one moves into
-- the gap.
abbrev pub last_first : List Task → List Task
last_first [] = []
last_first (t ∷ rest) = t ∷ reverse rest

abbrev pub last_to_front : List Task → List Task
last_to_front xs = last_first (reverse xs)

unfoldable pub swap_remove : ℕ → List Task → Option (Task × List Task)
swap_remove pid [] = none
swap_remove pid (t ∷ rest) =
    if t.pid == pid
    then some (t, last_to_front rest)
    else elim (swap_remove pid rest) [ none ↦ none | some (u, left) ↦ some (u, t ∷ left) ]

drop_notify : {E : Type 0} → Option ℕ → Sys E (Unit {0})
drop_notify none = pure tt
drop_notify (some fd) = drop_fd fd

-- What a finished child is reported as; the other states are unreachable.
unfoldable pub exit_code_of : {E : Type 0} → WaitStatus → Sys E ℕ
exit_code_of (exited pid code) = pure code
exit_code_of (signaled pid signal) = pure (signal + signalled.code)
exit_code_of _ = abort

module _ (codecs : Codecs) where
  unfoldable pub report_task : ℕ → ℕ → Task → Sys Error (Unit {0})
  unfolding exit_code_of
  report_task sock pid task = elim task.exit_code [
    | some code ↦ map_err Error.sandbox_ipc (send codecs.exit_code sock code)
    | none ↦ do
      wait_status ← map_err Error.syscall (sys_wait (waitpid (some pid)))
      code ← exit_code_of wait_status
      map_err Error.sandbox_ipc (send codecs.exit_code sock code)
  ]

  unfoldable pub process_get_exit_code_query : Zygote → ℕ → Sys Error Zygote
  unfolding swap_remove report_task drop_notify
  process_get_exit_code_query z pid = elim (swap_remove pid z.tasks) [
    | none ↦ abort
    | some (task, left) ↦ do
      result ← attempt (report_task z.sock pid task)
      drop_notify task.notify
      lift result
      pure (record z { tasks = left })
  ]

-- One task of the loop of `process_exited_child`: its waiter is notified, if it has one.
unfoldable pub notified : {E : Type 0} → ℕ → Task → Option ℕ → Sys E Task
notified code task none = pure (record task { exit_code = some code })
notified code task (some fd) =
    unwrap (sys_number (write fd (bytes "J"))) >> pure (record task { exit_code = some code })

unfoldable pub first_exit : {E : Type 0} → ℕ → Task → Option ℕ → Sys E Task
unfolding notified
first_exit code task (some prev) = abort
first_exit code task none = notified code task task.notify

unfoldable pub note_exit : {E : Type 0} → ℕ → Task → Sys E Task
unfolding first_exit
note_exit code task = first_exit code task task.exit_code

unfoldable pub process_exited_child : {E : Type 0} → ℕ → ℕ → List Task → Sys E (List Task)
unfolding note_exit
process_exited_child pid code [] = pure []
process_exited_child pid code (t ∷ rest) = do
  t' ← if t.pid == pid then note_exit code t else pure t
  rest' ← process_exited_child pid code rest
  pure (t' ∷ rest')

-- The new tasks, and whether a child was reaped.
unfoldable pub reap_child : List Task → Sys Error (List Task × Bool)
unfolding process_exited_child
reap_child tasks = map_err Error.syscall (sys_wait (waitpid none)) >>= λ wait_status.
    elim wait_status [
      | exited pid code ↦ do tasks' ← process_exited_child pid code tasks; pure (tasks', true)
      | still_alive ↦ pure (tasks, false)
      | signaled pid signal ↦ do
        tasks' ← process_exited_child pid (signalled.code + signal) tasks
        pure (tasks', true)
      | _ ↦ abort
    ]

unfoldable pub reap_children : ℕ → List Task → Sys Error (Option (List Task))
unfolding reap_child
reap_children zero tasks = pure none
reap_children (suc fuel) tasks = do
  (tasks', again) ← reap_child tasks
  elim again [ true ↦ reap_children fuel tasks' | false ↦ pure (some tasks') ]

-- A `timeval` as the code adds it up; the sum wraps.
unfoldable pub parse_timeval : ℕ → ℕ → ℕ
parse_timeval tv_sec tv_usec = (tv_usec + tv_sec * 1000000000) % u64_limit
