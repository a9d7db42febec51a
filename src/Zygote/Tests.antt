-- ===== src/Zygote/Tests.antt =====
-- The theorems on the zygote at concrete jobs and tables.
use minion.Base.{
  Text, map, ◌+◌, ℕ, true, false, ◌≡◌, refl, none, some, List, [], ◌∷◌, arith, inl, inr, bytes,
}
use minion.Os.{Env, ok, panic, ◌>>=◌, ◌>>◌}
use minion.Os.Samples.{answering, quiet}
use minion.Ipc.{Codec, send_fds, recv_fds, send_chunks, chunks}
use minion.Jail.{JobQuery, Codecs}
use minion.Limits.Driver.{prlimit_enter, cgroup_enter}
use minion.Limits.Cgroup
use minion.Limits.Cgroup.{v2}
use minion.Sandbox.Jobs.{ExtendedJobQuery, job_fds}
use minion.Os.Calls.{Call, metadata, select, close, fork}
use minion.Zygote.Serve.{legacy_round, contains}
use minion.Zygote.Exits.{process_exited_child-marked}
use minion.Zygote.Legacy.{legacy_round-never_reaps}
use minion.Zygote.Release.{spawn_job-closes}
use minion.Zygote.Exec.{DoExecArg, JobOptions, spawn_job}
use minion.Zygote.Loop.{
  Task, Zygote, SpawnFds, split_fds, process_spawn_query, process_exited_child, swap_remove,
}
use minion.Ipc.Packets.{Files, Arrives}
use minion.Zygote.Descriptors.{SameFiles, split_fds-job_fds, process_spawn_query-missing_stream}
use minion.Limits.Cgroup
use minion.Limits.Driver.{cgroup_enter}
use minion.Os.Traces.{Required}
use minion.Zygote.Exec.{do_exec}
use minion.Zygote.Launch.{launched}
use minion.Zygote.Joins.{must_succeed}
use minion.Zygote.Job.{prepared, do_exec-replaced}
use minion.Errors.{Error}
use minion.Options.Paths.{is_absolute}
use minion.Zygote.Diagnostics.{print_diagnostics, is_dir, body}
use minion.Os.{success}
use minion.Zygote.Listing.{reported, print_diagnostics-total}
use minion.Zygote.Ancestors.{ancestor, looked, FoundAt, IsRoot, IsDirectory}
use minion.Zygote.Confined.{IsConfined, serve, entry-IsConfined}
use minion.Zygote.Serve.{entry}
use minion.Zygote.Setup.{setup}
use minion.Base.{◌⊎◌, ◌≢◌, Option, true}
use minion.Os.{History, ok}
use minion.Zygote.Tasks.{Removed, swap_remove_lem}

abbrev no_codec : {T : Type 0} → Codec T
no_codec = record { type_id = 1; to_vec = λ m. some []; from_slice = λ s. none }

abbrev codecs : Codecs
codecs = record { query = no_codec; usage = no_codec; startup = no_codec; exit_code = no_codec }

abbrev query : JobQuery
query = record {
  image_path = bytes "/bin/x";
  argv = [];
  environment = [];
  pwd = bytes "/";
  extra_fds = 9 ∷ [];
}

abbrev whole : ExtendedJobQuery
whole = record {
  job_query = query;
  stdin = some 4;
  stdout = some 5;
  stderr = some 6;
  extra = 7 ∷ [];
}

abbrev no_input : ExtendedJobQuery
no_input = record whole { stdin = none }

abbrev bringing : List ℕ → Env
bringing fds = answering 0 (λ h. record { payload = bytes "_"; rights = some fds })

abbrev task : ℕ → Task
task pid = record { pid = pid; notify = none; exit_code = none }

abbrev zygote : Zygote
zygote = record {
  tasks = [];
  sock = 8;
  jail_options = record {
    max_alive_process_count = 1;
    memory_limit = 1;
    cpu_time_limit = 1;
    real_time_limit = 1;
    isolation_root = bytes "/r";
    shared_items = [];
    jail_id = bytes "j";
    allow_mount_ns_failure = false;
    sandbox_uid = none;
    enable_watchdog = false;
    seccomp = record { filter = [] };
  };
  handle =
      prlimit_enter (record { limits = record { memory_max = 1; pids_max = 1; cpu_usage = 1 } });
  pidfd = true;
}

abbrev job : DoExecArg
job = record {
  path = bytes "/bin/x";
  arguments = [];
  environment = [];
  stdio = record { stdin = 4; stdout = 5; stderr = 6 };
  extra_fds = (9, 7) ∷ [];
  pwd = bytes "/";
  enter_handle = zygote.handle;
  setuid = false;
  seccomp = zygote.jail_options.seccomp;
}

-- The zygote's numbers are the sender's plus ten.
abbrev files : Files
files = record { sender = λ fd. fd + 10; receiver = λ fd. fd }

arrived :
    (fds fds' : List ℕ)
    → map (λ fd. fd) fds' ≡ map (λ fd. fd + 10) fds
    → Arrives files
        (record { payload = bytes "_"; rights = some fds })
        (record { payload = bytes "_"; rights = some fds' })
arrived fds fds' e = record { payload = refl; rights = e }

split_fds-job_fds_example :
    (fds' : List ℕ) × (s : SpawnFds) × ((recv_fds 8 4 (bringing (14 ∷ 15 ∷ 16 ∷ 17 ∷ [])) []).0
      ≡ ok fds')
    × (split_fds fds' ≡ some s)
    × SameFiles files 4 5 6 (7 ∷ []) s
unfolding job_fds send_fds send_chunks chunks ◌>>◌
split_fds-job_fds_example =
    split_fds-job_fds files whole 4 5 6 3 8 quiet (bringing (14 ∷ 15 ∷ 16 ∷ 17 ∷ [])) [] refl refl
      refl refl (λ n. (refl, arrived (4 ∷ 5 ∷ 6 ∷ 7 ∷ []) (14 ∷ 15 ∷ 16 ∷ 17 ∷ []) refl, tt))

process_spawn_query-missing_stream_example :
    (process_spawn_query codecs zygote query (bringing (15 ∷ 16 ∷ 17 ∷ [])) []).0 ≡ panic
unfolding job_fds send_fds send_chunks chunks ◌>>◌
process_spawn_query-missing_stream_example =
    process_spawn_query-missing_stream codecs files no_input zygote 3 quiet
      (bringing (15 ∷ 16 ∷ 17 ∷ [])) [] (inl refl) refl (omega arith) (λ e. cc e) refl
      (λ n. (refl, arrived (5 ∷ 6 ∷ 7 ∷ []) (15 ∷ 16 ∷ 17 ∷ []) refl, tt))

abbrev open_fds : Env
open_fds = record quiet { numbers = λ h c. 4 ∷ 11 ∷ [] }

abbrev user_job : DoExecArg
user_job = record job { setuid = true; enter_handle = cgroup_enter (Cgroup.v1 (11 ∷ 12 ∷ [])) }

do_exec-replaced_example :
    ((do_exec {E = ℕ} user_job open_fds []).1 ≡ launched user_job (prepared user_job open_fds []))
    × Required must_succeed open_fds (launched user_job (prepared user_job open_fds []))
unfolding do_exec ◌>>◌
do_exec-replaced_example = do_exec-replaced {E = ℕ} user_job open_fds [] tt refl

swap_remove_lem_example : Removed 5 (task 4 ∷ task 5 ∷ []) (swap_remove 5 (task 4 ∷ task 5 ∷ []))
swap_remove_lem_example = swap_remove_lem 5 (task 4 ∷ task 5 ∷ [])

abbrev legacy : Zygote
legacy = record zygote { pidfd = false }

legacy_round-never_reaps_example :
    legacy_round codecs 3 20 legacy quiet [] ≡ (ok (some (legacy, none)), select (8 ∷ []) ∷ [])
unfolding contains ◌>>=◌
legacy_round-never_reaps_example =
    legacy_round-never_reaps codecs 3 20 legacy quiet [] refl (λ e. omega (arith, e)) refl tt

abbrev options : JobOptions
options = record {
  exe = job.path;
  argv = [];
  env = [];
  stdio = job.stdio;
  extra = job.extra_fds;
  pwd = job.pwd;
}

spawn_job-closes_example :
    spawn_job options false (cgroup_enter (v2 30)) job.seccomp quiet []
    ≡ (ok (record { pid = 3 }), close 7 ∷ close 30 ∷ close 6 ∷ close 5 ∷ close 4 ∷ fork ∷ [])
unfolding Cgroup.fds
spawn_job-closes_example =
    spawn_job-closes options false (cgroup_enter (v2 30)) job.seccomp quiet [] (λ h fd. refl) refl
      (λ e. omega (arith, e))

process_exited_child-marked_example :
    (process_exited_child {E = ℕ} 5 9
      (task 4 ∷ record (task 5) { notify = some 12 } ∷ [])
      quiet
      []).0
    ≡ ok (task 4 ∷ record (task 5) { notify = some 12; exit_code = some 9 } ∷ [])
process_exited_child-marked_example =
    process_exited_child-marked ℕ 5 9 quiet (λ h fd. refl)
      (task 4 ∷ record (task 5) { notify = some 12 } ∷ []) [] (inr refl, (inr refl, tt))

-- Every path is a directory.
-- Only a root is a directory.
abbrev mode_of : Text → ℕ
mode_of [] = 16877
mode_of (c ∷ r) = 33188

abbrev mode : Call → ℕ
mode (metadata p) = mode_of (body p)
mode _ = 0

abbrev bare : Env
bare = record quiet { status = λ h c. none; number = λ h c. mode c }

roots : (h : History) (q : Text) → IsRoot q → IsDirectory bare h q
unfolding is_dir
roots h q (a, root) = rw root refl

-- The search goes two steps up, and the root has one entry.
print_diagnostics-total_example :
    (k : ℕ) × (print_diagnostics
        (λ p. p)
        (λ errno. [])
        (λ n. n)
        (λ d. success (bytes "y") ∷ [])
        {E = Error}
        6
        (bytes "/usr/x")
        7
        bare
        []
      ≡ (
        ok (some tt),
        reported Error bare
            (λ p. p)
            (λ errno. [])
            (λ n. n)
            (λ d. success (bytes "y") ∷ [])
            7
            (ancestor k (bytes "/usr/x"))
            (looked k (bytes "/usr/x") []),
      ))
    × FoundAt bare k (bytes "/usr/x") []
unfolding is_absolute is_dir
print_diagnostics-total_example =
    print_diagnostics-total Error bare (λ p. p) (λ errno. []) (λ n. n)
      (λ d. success (bytes "y") ∷ []) [] (bytes "/usr/x") 7 refl roots

entry-IsConfined_example :
    ((h' : History) × IsConfined quiet zygote.jail_options h'
      × (entry codecs 2 zygote.jail_options 8 9 zygote.handle true quiet []
          ≡ serve codecs 2 zygote.jail_options 8 zygote.handle true quiet h'))
    ⊎ (((entry codecs 2 zygote.jail_options 8 9 zygote.handle true quiet []).1
          ≡ (setup zygote.jail_options 9 quiet []).1)
        × ((ret : Option ℕ)
            → (entry codecs 2 zygote.jail_options 8 9 zygote.handle true quiet []).0 ≢ ok ret))
entry-IsConfined_example =
    entry-IsConfined codecs 2 zygote.jail_options 8 9 zygote.handle true quiet []
