-- ===== src/Os/Calls.antt =====
-- The operating system calls that the modelled code makes, with the arguments that it passes.
use minion.Base.{ℕ, Bool, Option, List, Text}

pub data OpenMode : Type 0 where
  read_only write_only write_create : OpenMode

pub data Resource : Type 0 where
  address_data processes cpu_seconds : Resource

pub data Call : Type 0 where
  open_file : OpenMode → Text → Call
  write_file : Text → Text → Call
  read_to_string : Text → Call
  create_dir : Text → Call
  create_dir_all : Text → Call
  remove_dir : Text → Call
  metadata : Text → Call
  close : ℕ → Call
  dup : ℕ → Call
  dup2 : ℕ → ℕ → Call
  write : ℕ → Text → Call
  read : ℕ → ℕ → Call
  pipe : Call
  pipe_cloexec : Call
  socketpair : Call
  memfd_create : Bool → Call
  ftruncate : ℕ → ℕ → Call
  set_cloexec : ℕ → Call
  sendmsg : ℕ → Text → List ℕ → Call
  recvmsg : ℕ → ℕ → Call
  fork : Call
  getpid : Call
  setrlimit : Resource → ℕ → Call
  setgid : ℕ → Call
  setuid : ℕ → Call
  chdir : Text → Call
  chroot : Text → Call
  no_new_privs : Call
  seccomp_filter : ℕ → Text → Call
  execvpe : Text → List Text → List Text → Call
  unshare : Bool → Call
  kill : ℕ → ℕ → Call
  waitpid : Option ℕ → Call
  select : List ℕ → Call
  signalfd : Call
  getrusage : Call
  pidfd_open : ℕ → Call
  pidfd_send_signal : ℕ → ℕ → Call
  mount : Option Text → Text → Option Text → ℕ → Option Text → Call
  fchmodat : Text → ℕ → Call
  chown : Text → ℕ → ℕ → Call
  list_fds : Call
  sigaction : ℕ → Bool → Call
  block_signal : ℕ → Call
  effective_uid : Call
  getppid : Call
  register_async : ℕ → Call
  current_exe : Call
  run_command : Text → List Text → List (Text × Text) → Call
  command_output : Text → List Text → Call
  env_var : Text → Call
  set_fd_flags : ℕ → ℕ → Call
  fsync : ℕ → Call
  read_to_end : ℕ → Call
  read_file : Text → Call
  sleep : ℕ → Call
  current_dir : Call
  read_dir : Text → Call
