-- ===== src/Jail.antt =====
-- src/linux/jail_common.rs: what the sandbox process tells the zygote, and the end of a zygote.
use minion.Base.{ℕ, zero, suc, Bool, Option, List, [], ◌∷◌, Text, bytes, length, ◌%◌}
use minion.Os.{Sys, ignore, sys, ◌>>◌}
use minion.Os.Calls.{kill}
use minion.Options.{SharedItemKind}
use minion.Fds.{drop_fd}
use minion.Ipc.{Codec}

-- The filter program of src/linux/seccomp.rs.
pub record Seccomp : Type 0 where
  pub filter : Text

pub record SharedItemFlags : Type 0 where
  pub recursive : Bool

pub record LinuxSharedItem : Type 0 where
  pub src : Text
  pub dest : Text
  pub kind : SharedItemKind
  pub flags : SharedItemFlags

pub record JailOptions : Type 0 where
  pub max_alive_process_count : ℕ
  pub memory_limit : ℕ
  pub cpu_time_limit : ℕ
  pub real_time_limit : ℕ
  pub isolation_root : Text
  pub shared_items : List LinuxSharedItem
  pub jail_id : Text
  pub allow_mount_ns_failure : Bool
  pub sandbox_uid : Option ℕ
  pub enable_watchdog : Bool
  pub seccomp : Seccomp

abbrev pub id_chars : Text
id_chars = bytes "qwertyuiopasdfghjklzxcvbnm1234567890"

abbrev pub id_size : ℕ
id_size = 8

char_at : Text → ℕ → ℕ
char_at [] n = 0
char_at (c ∷ s) zero = c
char_at (c ∷ s) (suc n) = char_at s n

-- The generator's draws are an argument; `choose` picks an element by a draw in range.
unfoldable pub gen_id : ℕ → (ℕ → ℕ) → Text
unfolding char_at
gen_id zero draw = []
gen_id (suc n) draw = char_at id_chars (draw n % length id_chars) ∷ gen_id n draw

unfoldable pub gen_jail_id : (ℕ → ℕ) → Text
unfolding gen_id
gen_jail_id draw = gen_id id_size draw

pub record JobQuery : Type 0 where
  pub image_path : Text
  pub argv : List Text
  pub environment : List Text
  pub pwd : Text
  pub extra_fds : List ℕ

pub record GetExitCodeQuery : Type 0 where
  pub pid : ℕ

pub record ResourceUsageInformation : Type 0 where
  pub memory : ℕ
  pub cpu : ℕ

pub record JobStartupInfo : Type 0 where
  pub pid : ℕ

pub data Query : Type 0 where
  spawn : JobQuery → Query
  get_exit_code : GetExitCodeQuery → Query
  get_resource_usage : Query

-- `sock` is the number of the socket's descriptor.
pub record ZygoteInfo : Type 0 where
  pub sock : ℕ
  pub pid : ℕ

pub record ZygoteStartupInfo : Type 0 where
  pub socket : ℕ
  pub zygote_pid : ℕ

-- SIGKILL, SIGTERM and SIGABRT; failures are ignored.
unfoldable pub send_term_signals : {E : Type 0} → ℕ → Sys E (Unit {0})
send_term_signals pid =
    ignore (sys (kill pid 9)) >> ignore (sys (kill pid 15)) >> ignore (sys (kill pid 6))

-- `Drop for ZygoteInfo`, then the drop of its fields.
unfoldable pub drop_zygote : {E : Type 0} → ZygoteInfo → Sys E (Unit {0})
unfolding send_term_signals drop_fd
drop_zygote z = send_term_signals z.pid >> drop_fd z.sock

-- How each kind of message is written to and read from a socket.
pub record Codecs : Type 0 where
  pub query : Codec Query
  pub usage : Codec ResourceUsageInformation
  pub startup : Codec JobStartupInfo
  pub exit_code : Codec ℕ
