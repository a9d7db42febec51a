-- ===== src/Util.antt =====
-- src/linux/util.rs: the raw calls on process descriptors, the conversion of errors, and the logger
-- that writes to a descriptor that is never open, for strace to show. `err_exit` and
-- `duplicate_string` of that file are definitions of Zygote/Exec.
use minion.Base.{ℕ, ◌-◌, ◌≡◌, refl, inl, inr, Text, u32_limit, length, Option-cases, ◌∷◌}
use minion.Os.{Env, History, ok, Sys, pure, ignore, sys, sys_number, ◌>>◌}
use minion.Os.Calls
use minion.Errors.{NixError}

-- A negative result is an error, whose number is that of the system.
abbrev pub pidfd_open : ℕ → Sys ℕ ℕ
pidfd_open pid = sys_number (Calls.pidfd_open pid)

abbrev pub pidfd_send_signal : ℕ → ℕ → Sys ℕ (Unit {0})
pidfd_send_signal pid signal = sys (Calls.pidfd_send_signal pid signal)

-- `std::io::Error`: an error of the system, or a custom one.
pub data IoError : Type 0 where
  raw_os : ℕ → IoError
  custom : IoError

unfoldable pub cvt_error : NixError → IoError
cvt_error (NixError.sys errno) = raw_os errno
cvt_error NixError.other = custom

pub record StraceLogger : Type 0 where
  pub fd : ℕ

-- Minus 779, as an `i32`.
abbrev pub strace_logger_fd : ℕ
strace_logger_fd = u32_limit - 779

abbrev pub strace_logger : StraceLogger
strace_logger = record { fd = strace_logger_fd }

abbrev pub set_fd : StraceLogger → ℕ → StraceLogger
set_fd logger f = record logger { fd = f }

-- `Write::write`: the result of the call is not read, so that logging always succeeds.
unfoldable pub write : {E : Type 0} → StraceLogger → Text → Sys E ℕ
write logger buf = ignore (sys_number (Calls.write logger.fd buf)) >> pure (length buf)

unfoldable pub flush : {E : Type 0} → StraceLogger → Sys E (Unit {0})
flush logger = pure tt

-- Whatever the descriptor, a write to the logger reports that everything was written.
pub write_lem :
    (E : Type 0) (logger : StraceLogger) (buf : Text) (env : Env) (h : History)
    → write {E = E} logger buf env h ≡ (ok (length buf), Calls.write logger.fd buf ∷ h)
unfolding write ◌>>◌
write_lem E logger buf env h = elim (Option-cases (env.status h (Calls.write logger.fd buf))) [
  | inl e ↦ rw e refl
  | inr (errno, e) ↦ rw e refl
]
