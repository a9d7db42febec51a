-- ===== src/Zygote/Start.antt =====
-- src/linux/zygote.rs: the creation of a zygote. The caller's process, the intermediate child and
-- the zygote run the same function and part at each `fork`, which yields zero in the child.
use minion.Base.{
  ℕ, ◌==◌, Bool, Option, none, some, List, [], ◌∷◌, ◌++◌, Text, bytes, length, decimal,
  if◌then◌else◌,
}
use minion.Os.{
  Sys, Result, success, failure, pure, abort, leave, lift, map_err, attempt, unwrap, sys,
  sys_number, sys_pair, sys_text, sys_value, ◌>>=◌, ◌>>◌,
}
use minion.Ipc.{pair}
use minion.Os.Calls.{pipe, fork, unshare, read, write, write_file, effective_uid}
use minion.Errors.{Error}
use minion.Fds.{drop_fd, drop_fds}
use minion.Ipc.{to_ne_bytes, from_ne_bytes}
use minion.Jail.{JailOptions, ZygoteStartupInfo, Codecs}
use minion.Limits.Driver.{OpaqueEnterHandle}
use minion.Zygote.Exec.{sandbox_internal_uid}
use minion.Zygote.Serve.{entry}

-- The text of `uid_map` and `gid_map`: the caller is root inside, and in a sandbox with its own
-- user the internal user is that one.
unfoldable pub id_mapping : Option ℕ → ℕ → Text
id_mapping none effective = bytes "0 " ++ decimal effective ++ bytes " 1"
id_mapping (some separate_user) effective =
    bytes "0 "
    ++ decimal effective
    ++ bytes " 1"
    ++ (10 ∷ [])
    ++ decimal sandbox_internal_uid
    ++ bytes " "
    ++ decimal separate_user
    ++ bytes " 1"

unfoldable pub proc_file : ℕ → Text → Text
proc_file pid name = bytes "/proc/" ++ decimal pid ++ bytes "/" ++ name

-- `start_zygote_caller`: thread A, which learns the zygote's number and maps its identifiers.
unfoldable pub start_zygote_caller :
    {E : Type 0} → JailOptions → ℕ → ℕ → ℕ → Sys E ZygoteStartupInfo
unfolding id_mapping proc_file
start_zygote_caller o socket zygote_pid_r uid_mapping_done = do
  buf ← unwrap (sys_text (read zygote_pid_r 4))
  if length buf == 4 then pure tt else abort
  let zygote_pid = from_ne_bytes buf
  effective ← sys_value effective_uid
  let mapping = id_mapping o.sandbox_uid effective
  unwrap (sys (write_file (proc_file zygote_pid (bytes "setgroups")) (bytes "deny")))
  unwrap (sys (write_file (proc_file zygote_pid (bytes "uid_map")) mapping))
  unwrap (sys (write_file (proc_file zygote_pid (bytes "gid_map")) mapping))
  unwrap (sys_number (write uid_mapping_done (bytes "D")))
  drop_fd uid_mapping_done
  drop_fd zygote_pid_r
  pure (record { socket = socket; zygote_pid = zygote_pid })

-- `start_zygote_main_process`: thread C exits with the loop's code, or with 1 on an error.
unfoldable pub start_zygote_main_process :
    {E : Type 0} → Codecs → ℕ → JailOptions → ℕ → ℕ → OpaqueEnterHandle → Bool → Sys E ⊥
start_zygote_main_process codecs fuel o uid_mapping_done sock handle pidfd =
    attempt (entry codecs fuel o sock uid_mapping_done handle pidfd) >>= λ code. elim code [
      | failure e ↦ leave 1
      | success ret ↦ elim ret [ none ↦ abort | some c ↦ leave c ]
    ]

-- Whether the mount namespace may be missing.
tolerate : Bool → Result ℕ (Unit {0}) → Sys Error (Unit {0})
tolerate allowed (success _) = pure tt
tolerate allowed (failure errno) = if allowed then pure tt else lift (failure (Error.syscall errno))

-- The descriptors of `start_zygote` that are owned when it ends early, in the order of their drops.
fail_dropping : {A : Type 0} → List ℕ → ℕ → Sys Error A
fail_dropping fds errno = drop_fds fds >> lift (failure (Error.syscall errno))

told : {E A : Type 0} → ℕ → Sys E A
told len = if len == 4 then leave 0 else abort

-- The intermediate child: it leaves the caller's namespaces, forks the zygote, tells its number and
-- exits. A failure before that returns from `start_zygote` in the child too.
unfoldable pub namespace_root :
    Codecs → ℕ → JailOptions → OpaqueEnterHandle → Bool → ℕ → ℕ → ℕ → Sys Error ZygoteStartupInfo
unfolding start_zygote_main_process tolerate told
namespace_root codecs fuel o handle pidfd uid_mapping_done_r zyg_sock zygote_pid_w = do
  map_err Error.syscall (sys (unshare Bool.false))
  attempt (sys (unshare Bool.true)) >>= tolerate o.allow_mount_ns_failure
  child ← map_err Error.syscall (sys_number fork)
  if child == 0
      then (start_zygote_main_process codecs fuel o uid_mapping_done_r zyg_sock handle pidfd
          >>= λ never. absurd never)
      else (unwrap (sys_number (write zygote_pid_w (to_ne_bytes 4 child))) >>= told)

-- `start_zygote` once its socket pair and its two pipes are there, read ends first.
unfoldable pub start_with :
    Codecs
    → ℕ
    → JailOptions
    → OpaqueEnterHandle
    → Bool
    → ℕ × ℕ
    → ℕ × ℕ
    → ℕ × ℕ
    → Sys Error ZygoteStartupInfo
unfolding fail_dropping namespace_root start_zygote_caller
start_with codecs fuel o handle pidfd (client, zyg_sock) (pid_r, pid_w) (done_r, done_w) =
    attempt (sys_number fork) >>= λ res. elim res [
      | failure errno ↦
          fail_dropping (done_w ∷ done_r ∷ pid_w ∷ pid_r ∷ zyg_sock ∷ client ∷ []) errno
      | success pid ↦
          if pid == 0
          then (attempt (namespace_root codecs fuel o handle pidfd done_r zyg_sock pid_w) >>= λ r.
              drop_fds (done_w ∷ done_r ∷ pid_w ∷ pid_r ∷ zyg_sock ∷ client ∷ []) >> lift r)
          else (do
            info ← start_zygote_caller o client pid_r done_w
            drop_fds (done_r ∷ pid_w ∷ zyg_sock ∷ [])
            pure info)
    ]

-- The second and the first pipe of `start_zygote`.
second_pipe :
    Codecs
    → ℕ
    → JailOptions
    → OpaqueEnterHandle
    → Bool
    → ℕ × ℕ
    → ℕ × ℕ
    → Sys Error ZygoteStartupInfo
unfolding start_with fail_dropping
second_pipe codecs fuel o handle pidfd socks pids = attempt (sys_pair pipe) >>= λ res. elim res [
  | failure errno ↦ fail_dropping (pids.1 ∷ pids.0 ∷ socks.1 ∷ socks.0 ∷ []) errno
  | success done ↦ start_with codecs fuel o handle pidfd socks pids done
]

first_pipe :
    Codecs → ℕ → JailOptions → OpaqueEnterHandle → Bool → ℕ × ℕ → Sys Error ZygoteStartupInfo
unfolding second_pipe fail_dropping
first_pipe codecs fuel o handle pidfd socks = attempt (sys_pair pipe) >>= λ res. elim res [
  | failure errno ↦ fail_dropping (socks.1 ∷ socks.0 ∷ []) errno
  | success pids ↦ second_pipe codecs fuel o handle pidfd socks pids
]

-- `start_zygote`; the fuel is for the loop of the zygote's own process.
unfoldable pub start_zygote :
    Codecs → ℕ → JailOptions → OpaqueEnterHandle → Bool → Sys Error ZygoteStartupInfo
unfolding first_pipe pair
start_zygote codecs fuel o handle pidfd = do
  socks ← map_err Error.sandbox_ipc pair
  first_pipe codecs fuel o handle pidfd socks
