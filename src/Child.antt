-- ===== src/Child.antt =====
-- src/linux.rs: the standard streams of a child, the start of a job and the child's object. A
-- `File` over /dev/null is its descriptor.
use minion.Base.{
  ℕ, ◌%◌, u32_limit, Bool, true, false, Option, none, some, List, [], ◌∷◌, ◌++◌, map, Text, bytes,
}
use minion.Os.{
  Sys, success, failure, pure, abort, lift, attempt, map_err, unwrap, sys, sys_number, ◌>>=◌, ◌>>◌,
}
use minion.Os.Calls.{open_file, read_only, write_create, memfd_create, ftruncate}
use minion.Options.{InputSpecification, OutputSpecification, Handle, ChildProcessOptions}
use minion.Errors.{Error}
use minion.Fds.{
  LinuxReadPipe, LinuxWritePipe, setup_pipe, duplicate_with_inheritance, drop_fd, drop_fds,
}
use minion.Jail.{JobQuery, ZygoteInfo, Codecs}
use minion.Sandbox.Jobs.{ExtendedJobQuery, spawn_job}

-- A duplicate of `fd`, whatever becomes of it; `fd` is dropped on both ways.
unfoldable pub duplicate_and_drop : ℕ → Sys Error ℕ
duplicate_and_drop fd = do
  copy ← attempt (map_err Error.syscall (duplicate_with_inheritance fd))
  drop_fd fd
  lift copy

abbrev dev_null : Text
dev_null = bytes "/dev/null"

-- `h.0 as RawFd`, which keeps the low 32 bits of the handle.
unfoldable pub as_raw_fd : Handle → ℕ
as_raw_fd h = h.raw % u32_limit

-- The end that the caller keeps, and the descriptor that the child gets.
unfoldable pub handle_input_io : InputSpecification → Sys Error (Option LinuxWritePipe × Option ℕ)
unfolding duplicate_and_drop as_raw_fd
handle_input_io InputSpecification.pipe = do
  (tx, rx) ← map_err Error.syscall setup_pipe
  copy ← attempt (duplicate_and_drop rx.fd)
  elim copy [ failure e ↦ drop_fd tx.fd >> lift (failure e) | success f ↦ pure (some tx, some f) ]
handle_input_io (InputSpecification.handle rh) = pure (none, some (as_raw_fd rh))
handle_input_io InputSpecification.empty = do
  file ← map_err Error.io (sys_number (open_file write_create dev_null))
  copy ← duplicate_and_drop file
  pure (none, some copy)
handle_input_io InputSpecification.null = pure (none, none)

-- The size of a bounded buffer; the memory file is dropped only once it is an `Fd`.
truncate : ℕ → Option ℕ → Sys Error (Unit {0})
truncate mfd none = pure tt
truncate mfd (some size) = map_err Error.syscall (sys (ftruncate mfd size))

abbrev is_some : Option ℕ → Bool
is_some none = false
is_some (some a) = true

unfoldable pub handle_output_io : OutputSpecification → Sys Error (Option LinuxReadPipe × Option ℕ)
unfolding duplicate_and_drop truncate as_raw_fd
handle_output_io OutputSpecification.null = pure (none, none)
handle_output_io (OutputSpecification.handle rh) = pure (none, some (as_raw_fd rh))
handle_output_io OutputSpecification.pipe = do
  (tx, rx) ← map_err Error.syscall setup_pipe
  copy ← attempt (duplicate_and_drop tx.fd)
  elim copy [ failure e ↦ drop_fd rx.fd >> lift (failure e) | success f ↦ pure (some rx, some f) ]
handle_output_io OutputSpecification.ignore = do
  file ← map_err Error.io (sys_number (open_file read_only dev_null))
  copy ← duplicate_and_drop file
  pure (none, some copy)
handle_output_io (OutputSpecification.buffer sz) = do
  mfd ← unwrap (sys_number (memfd_create (is_some sz)))
  truncate mfd sz
  copy ← attempt (map_err Error.syscall (duplicate_with_inheritance mfd))
  elim copy [
    | failure e ↦ drop_fd mfd >> lift (failure e)
    | success child_mfd ↦ pure (some (record { fd = mfd }), some child_mfd)
  ]

-- `EXIT_CODE_STILL_RUNNING` is never read again, so the child's `exit_code` field has no entry.
pub record LinuxChildProcess : Type 0 where
  pub stdin : Option LinuxWritePipe
  pub stdout : Option LinuxReadPipe
  pub stderr : Option LinuxReadPipe
  pub pid : ℕ
  pub fd : Option ℕ

-- `ChildProcess::stdin` and its like: the pipe is there for the first call only.
unfoldable pub take_stdin : LinuxChildProcess → LinuxChildProcess × Option LinuxWritePipe
take_stdin c = (record c { stdin = none }, c.stdin)

unfoldable pub take_stdout : LinuxChildProcess → LinuxChildProcess × Option LinuxReadPipe
take_stdout c = (record c { stdout = none }, c.stdout)

unfoldable pub take_stderr : LinuxChildProcess → LinuxChildProcess × Option LinuxReadPipe
take_stderr c = (record c { stderr = none }, c.stderr)

-- `wait_for_exit`: the descriptor to wait on; a second call panics.
unfoldable pub wait_for_exit : {E : Type 0} → LinuxChildProcess → Sys E (LinuxChildProcess × ℕ)
wait_for_exit c = elim c.fd [ none ↦ abort | some fd ↦ pure (record c { fd = none }, fd) ]

raw_handles : List Handle → List ℕ
unfolding as_raw_fd
raw_handles hs = map as_raw_fd hs

unfoldable pub job_query : ChildProcessOptions → JobQuery
unfolding raw_handles
job_query o = record {
  image_path = o.path;
  argv = o.arguments;
  environment = o.environment;
  pwd = o.pwd;
  extra_fds = raw_handles o.extra_inherit;
}

opt_fd : Option ℕ → List ℕ
opt_fd none = []
opt_fd (some fd) = fd ∷ []

write_end : Option LinuxWritePipe → List ℕ
write_end none = []
write_end (some p) = p.fd ∷ []

read_end : Option LinuxReadPipe → List ℕ
read_end none = []
read_end (some p) = p.fd ∷ []

-- What is owned when a later step of `spawn` fails is dropped, the newest first.
or_dropping : {A : Type 0} → List ℕ → Sys Error A → Sys Error A
or_dropping fds m =
    attempt m >>= λ r. elim r [ failure e ↦ drop_fds fds >> lift (failure e) | success a ↦ pure a ]

-- `spawn`, with the zygote slot of the sandbox.
unfoldable pub spawn :
    Codecs → Option ZygoteInfo → ChildProcessOptions → Sys Error LinuxChildProcess
unfolding handle_input_io handle_output_io job_query spawn_job raw_handles or_dropping opt_fd
    write_end read_end
spawn codecs zyg o = do
  (in_w, in_r) ← handle_input_io o.stdio.stdin
  let owned_in = opt_fd in_r ++ write_end in_w
  (out_r, out_w) ← or_dropping owned_in (handle_output_io o.stdio.stdout)
  let owned_out = opt_fd out_w ++ read_end out_r ++ owned_in
  (err_r, err_w) ← or_dropping owned_out (handle_output_io o.stdio.stderr)
  let q : ExtendedJobQuery = record {
    job_query = job_query o;
    stdin = in_r;
    stdout = out_w;
    stderr = err_w;
    extra = raw_handles o.extra_inherit;
  }
  (info, exit_fd) ←
      or_dropping (read_end err_r ++ read_end out_r ++ write_end in_w) (spawn_job codecs zyg q)
  pure (record { stdin = in_w; stdout = out_r; stderr = err_r; pid = info.pid; fd = some exit_fd })
