-- ===== src/Zygote/Setup.antt =====
-- src/linux/zygote/setup.rs: what the zygote does before it serves requests. The panic hook, which
-- logs and exits, is the outcome `panic`.
use Prim.Native.Nat.{bit_or}
use minion.Base.{ℕ, ◌==◌, Bool, none, some, List, [], ◌∷◌, Text, bytes, if◌then◌else◌}
use minion.Os.{
  Sys, Result, success, failure, pure, abort, map_err, attempt, unwrap, sys, sys_number, sys_text,
  ◌>>=◌, ◌>>◌,
}
use minion.Os.Calls.{
  fchmodat, chown, create_dir_all, create_dir, metadata, remove_dir, write_file, mount, sigaction,
  block_signal, chroot, chdir, read,
}
use minion.Options.{SharedItemKind, readonly, full, join}
use minion.Errors.{Error}
use minion.Jail.{JailOptions, LinuxSharedItem}
use minion.Zygote.Exec.{sandbox_internal_uid, c_string, err_exit}

-- Mode 0777, then the owner and the group.
unfoldable pub configure_dir : Text → Sys Error (Unit {0})
configure_dir dir_path = do
  c_string dir_path
  map_err Error.syscall (sys (fchmodat dir_path 511))
  map_err Error.syscall (sys (chown dir_path sandbox_internal_uid sandbox_internal_uid))

abbrev pub ms_rdonly : ℕ
ms_rdonly = 1

abbrev pub ms_remount : ℕ
ms_remount = 32

abbrev pub ms_bind : ℕ
ms_bind = 4096

abbrev pub ms_rec : ℕ
ms_rec = 16384

-- The flags of the first mount.
abbrev pub bind_flags : Bool → ℕ
bind_flags recursive = if recursive then bit_or ms_bind ms_rec else ms_bind

or_exit : {E : Type 0} → Result ℕ (Unit {0}) → Sys E (Unit {0})
unfolding err_exit
or_exit (success _) = pure tt
or_exit (failure errno) = err_exit

unfoldable pub remount : {E : Type 0} → SharedItemKind → Text → ℕ → Sys E (Unit {0})
unfolding or_exit
remount readonly bind_target flags =
    attempt (sys (mount none bind_target none flags none)) >>= or_exit
remount full bind_target flags = pure tt

-- A file is mounted on an empty file, so the directory made for it goes again. `metadata` yields
-- one for a file.
unfoldable pub expose_item : {E : Type 0} → Text → LinuxSharedItem → Sys E (Unit {0})
unfolding c_string remount or_exit
expose_item jail_root x = do
  let bind_target = join jail_root x.dest
  unwrap (sys (create_dir_all bind_target))
  is_file ← unwrap (sys_number (metadata x.src))
  if is_file == 1
      then (unwrap (sys (remove_dir bind_target)) >> unwrap (sys (write_file bind_target [])))
      else pure tt
  c_string bind_target
  c_string x.src
  let flags = bind_flags x.flags.recursive
  attempt (sys (mount (some x.src) bind_target none flags none)) >>= or_exit
  remount x.kind bind_target (bit_or flags (bit_or ms_remount ms_rdonly))

unfoldable pub expose_items : {E : Type 0} → Text → List LinuxSharedItem → Sys E (Unit {0})
unfolding expose_item
expose_items jail_root [] = pure tt
expose_items jail_root (x ∷ rest) = expose_item jail_root x >> expose_items jail_root rest

unfoldable pub setup_expositions : {E : Type 0} → JailOptions → Sys E (Unit {0})
unfolding expose_items
setup_expositions o = expose_items o.isolation_root o.shared_items

-- SIGABRT, SIGINT and SIGSEGV take their default action, SIGTERM the handler that exits; SIGCHLD is
-- blocked.
unfoldable pub setup_sighandler : {E : Type 0} → Sys E (Unit {0})
setup_sighandler = do
  unwrap (sys (sigaction 6 Bool.false))
  unwrap (sys (sigaction 2 Bool.false))
  unwrap (sys (sigaction 11 Bool.false))
  unwrap (sys (sigaction 15 Bool.true))
  unwrap (sys (block_signal 17))

unfoldable pub setup_chroot : JailOptions → Sys Error (Unit {0})
setup_chroot o =
    map_err Error.syscall (sys (chroot o.isolation_root))
    >> map_err Error.syscall (sys (chdir (bytes "/")))

-- EEXIST
unfoldable pub tolerate_existing : {E : Type 0} → Result ℕ (Unit {0}) → Sys E (Unit {0})
tolerate_existing (success _) = pure tt
tolerate_existing (failure errno) = if errno == 17 then pure tt else abort

unfoldable pub setup_procfs : JailOptions → Sys Error (Unit {0})
unfolding tolerate_existing
setup_procfs o = do
  let procfs_path = join o.isolation_root (bytes "proc")
  attempt (sys (create_dir procfs_path)) >>= tolerate_existing
  map_err Error.syscall (sys (mount (some (bytes "proc")) procfs_path (some (bytes "proc")) 0 none))

-- `setup`: `uid_mapping_done` becomes readable when the identifiers are mapped.
unfoldable pub setup : JailOptions → ℕ → Sys Error (Unit {0})
unfolding setup_sighandler configure_dir setup_expositions setup_procfs setup_chroot
setup o uid_mapping_done = do
  setup_sighandler
  map_err Error.io (sys_text (read uid_mapping_done 1))
  elim o.sandbox_uid [ none ↦ pure tt | some uid ↦ configure_dir o.isolation_root ]
  setup_expositions o
  setup_procfs o
  setup_chroot o
