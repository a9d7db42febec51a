-- ===== src/Zygote/Serve.antt =====
-- src/linux/zygote/main_loop.rs: one request, the two request loops, and the zygote's entry point.
use minion.Base.{
  ℕ, zero, suc, ◌+◌, ◌%◌, ◌==◌, ◌||◌, Bool, true, false, Option, none, some, List, [], ◌∷◌,
  u64_limit, if◌then◌else◌,
}
use minion.Os.{Sys, success, failure, pure, map_err, attempt, sys_number, sys_numbers, ◌>>=◌, ◌>>◌}
use minion.Os.Calls.{getrusage, signalfd, select}
use minion.Errors.{Error}
use minion.Ipc.{send, recv}
use minion.Jail.{
  JailOptions, Query, spawn, get_exit_code, get_resource_usage, Codecs, ResourceUsageInformation,
}
use minion.Limits.Driver.{OpaqueEnterHandle}
use minion.Zygote.Setup.{setup}
use minion.Zygote.Loop.{
  Zygote, Task, bad_query, parse_timeval, reap_children, process_spawn_query,
  process_get_exit_code_query,
}

-- What `getrusage` fills in, as far as the code reads it.
pub record RUsage : Type 0 where
  pub maxrss : ℕ
  pub utime_sec : ℕ
  pub utime_usec : ℕ
  pub stime_sec : ℕ
  pub stime_usec : ℕ

-- The numbers that the call yields, in this order.
unfoldable pub rusage_of : List ℕ → RUsage
rusage_of (m ∷ us ∷ uu ∷ ss ∷ su ∷ rest) = record {
  maxrss = m;
  utime_sec = us;
  utime_usec = uu;
  stime_sec = ss;
  stime_usec = su;
}
rusage_of _ = record { maxrss = 0; utime_sec = 0; utime_usec = 0; stime_sec = 0; stime_usec = 0 }

unfoldable pub usage_information : RUsage → ResourceUsageInformation
unfolding parse_timeval
usage_information u = record {
  memory = u.maxrss;
  cpu =
      (parse_timeval u.utime_sec u.utime_usec + parse_timeval u.stime_sec u.stime_usec) % u64_limit;
}

unfoldable pub contains : List ℕ → ℕ → Bool
contains [] fd = false
contains (x ∷ xs) fd = (x == fd) || contains xs fd

module _ (codecs : Codecs) where
  unfoldable pub process_resource_usage_query : Zygote → Sys Error (Unit {0})
  unfolding rusage_of usage_information
  process_resource_usage_query z = do
    usage ← map_err Error.io (sys_numbers getrusage)
    map_err Error.sandbox_ipc (send codecs.usage z.sock (usage_information (rusage_of usage)))

  unfoldable pub answer_query : Zygote → Query → Sys Error Zygote
  unfolding process_resource_usage_query
  answer_query z (spawn opts) = process_spawn_query codecs z opts
  answer_query z (get_exit_code query) = process_get_exit_code_query codecs z query.pid
  answer_query z get_resource_usage = do process_resource_usage_query z; pure z

  -- The zygote after one request, and the return code if the loop has to end.
  unfoldable pub handle_one_request : Zygote → Sys Error (Zygote × Option ℕ)
  unfolding answer_query
  handle_one_request z = attempt (recv codecs.query z.sock) >>= λ received. elim received [
    | failure e ↦ pure (z, some bad_query)
    | success query ↦ do z' ← answer_query z query; pure (z', none)
  ]

  unfoldable pub run_loop_pidfd : ℕ → Zygote → Sys Error (Option ℕ)
  unfolding handle_one_request
  run_loop_pidfd zero z = pure none
  run_loop_pidfd (suc fuel) z = do
    (z', ret) ← handle_one_request z
    elim ret [ some code ↦ pure (some code) | none ↦ run_loop_pidfd fuel z' ]

  -- What the legacy loop asks `select` to watch.
  unfoldable pub watched : Bool → ℕ → ℕ → List ℕ
  watched pidfd sig_fd sock_fd = if pidfd then sig_fd ∷ sock_fd ∷ [] else sock_fd ∷ []

  reap_if : ℕ → Bool → List Task → Sys Error (Option (List Task))
  reap_if fuel true tasks = reap_children fuel tasks
  reap_if fuel false tasks = pure (some tasks)

  serve_if : Bool → Zygote → Sys Error (Zygote × Option ℕ)
  unfolding handle_one_request
  serve_if true z = handle_one_request z
  serve_if false z = pure (z, none)

  -- One round of the legacy loop: wait, reap the children that ended, serve a request.
  unfoldable pub legacy_round : ℕ → ℕ → Zygote → Sys Error (Option (Zygote × Option ℕ))
  unfolding watched reap_if serve_if contains
  legacy_round fuel sig_fd z = do
    ready ← map_err Error.syscall (sys_numbers (select (watched z.pidfd sig_fd z.sock)))
    reaped ← reap_if fuel (contains ready sig_fd) z.tasks
    elim reaped [
      | none ↦ pure none
      | some tasks ↦ do
        r ← serve_if (contains ready z.sock) (record z { tasks = tasks })
        pure (some r)
    ]

  unfoldable pub legacy_rounds : ℕ → ℕ → Zygote → Sys Error (Option ℕ)
  unfolding legacy_round
  legacy_rounds zero sig_fd z = pure none
  legacy_rounds (suc fuel) sig_fd z = legacy_round fuel sig_fd z >>= λ r. elim r [
    | none ↦ pure none
    | some (z', ret) ↦ elim ret [
      | some code ↦ pure (some code)
      | none ↦ legacy_rounds fuel sig_fd z'
    ]
  ]

  unfoldable pub run_loop_legacy : ℕ → Zygote → Sys Error (Option ℕ)
  unfolding legacy_rounds
  run_loop_legacy fuel z = do
    sig_fd ← map_err Error.syscall (sys_number signalfd)
    legacy_rounds fuel sig_fd z

  -- `entry`: the loop is chosen by whether the kernel has process descriptors.
  unfoldable pub entry : ℕ → JailOptions → ℕ → ℕ → OpaqueEnterHandle → Bool → Sys Error (Option ℕ)
  unfolding run_loop_pidfd run_loop_legacy
  entry fuel o sock uid_mapping_done handle pidfd = do
    setup o uid_mapping_done
    let z : Zygote = record {
      tasks = [];
      sock = sock;
      jail_options = o;
      handle = handle;
      pidfd = pidfd;
    }
    if pidfd then run_loop_pidfd fuel z else run_loop_legacy fuel z
