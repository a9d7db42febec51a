-- ===== src/Fds.antt =====
-- src/linux/fd.rs and src/linux/pipe.rs: owned descriptors. An `Fd` is its number; who owns it is
-- said by where `drop_fd` is called.
use minion.Base.{ℕ, List, [], ◌∷◌, Text}
use minion.Os.{Sys, pure, unwrap, sys, sys_number, sys_pair, sys_text, ◌>>=◌, ◌>>◌}
use minion.Os.Calls.{close, dup, read, write, pipe_cloexec, set_fd_flags, fsync}

-- `Drop for Fd`: a failing `close` panics.
unfoldable pub drop_fd : {E : Type 0} → ℕ → Sys E (Unit {0})
drop_fd fd = unwrap (sys (close fd))

-- A `Vec<Fd>` drops its elements in order.
unfoldable pub drop_fds : {E : Type 0} → List ℕ → Sys E (Unit {0})
unfolding drop_fd
drop_fds [] = pure tt
drop_fds (fd ∷ rest) = drop_fd fd >> drop_fds rest

unfoldable pub duplicate_with_inheritance : ℕ → Sys ℕ ℕ
duplicate_with_inheritance fd = sys_number (dup fd)

unfoldable pub read_fd : ℕ → ℕ → Sys ℕ Text
read_fd fd size = sys_text (read fd size)

unfoldable pub write_fd : ℕ → Text → Sys ℕ ℕ
write_fd fd buf = sys_number (write fd buf)

pub record LinuxReadPipe : Type 0 where
  pub fd : ℕ

pub record LinuxWritePipe : Type 0 where
  pub fd : ℕ

-- `setup_pipe`: the system yields the read end first, and the function the write end.
unfoldable pub setup_pipe : Sys ℕ (LinuxWritePipe × LinuxReadPipe)
setup_pipe = do ends ← sys_pair pipe_cloexec; pure (record { fd = ends.1 }, record { fd = ends.0 })

-- `Fd::allow_inherit`: no flag stays, FD_CLOEXEC among them.
unfoldable pub allow_inherit : ℕ → Sys ℕ (Unit {0})
allow_inherit fd = sys (set_fd_flags fd 0)

-- `Read for LinuxReadPipe` and `Write for LinuxWritePipe`
unfoldable pub read_pipe : LinuxReadPipe → ℕ → Sys ℕ Text
unfolding read_fd
read_pipe p size = read_fd p.fd size

unfoldable pub write_pipe : LinuxWritePipe → Text → Sys ℕ ℕ
unfolding write_fd
write_pipe p buf = write_fd p.fd buf

unfoldable pub flush_pipe : LinuxWritePipe → Sys ℕ (Unit {0})
flush_pipe p = sys (fsync p.fd)
