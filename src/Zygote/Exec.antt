-- ===== src/Zygote/Exec.antt =====
-- src/linux/zygote.rs: the creation of a job, and what its process does before it runs the program
-- (with `Seccomp::enable` of src/linux/seccomp.rs and `err_exit` of src/linux/util.rs). The messages
-- on standard error are not modelled, nor here the listing of Diagnostics that a missing executable
-- causes.
use minion.Base.{ℕ, ◌/◌, ◌==◌, Bool, List, [], ◌∷◌, Text, length, ltb, if◌then◌else◌}
use minion.Os.{
  Sys, Result, success, failure, pure, abort, leave, lift, attempt, unwrap, ignore, sys, sys_number,
  sys_replace, sys_value, sys_numbers, ◌>>=◌, ◌>>◌,
}
use minion.Os.Calls.{
  dup, dup2, getpid, list_fds, set_cloexec, chdir, setgid, setuid, no_new_privs, seccomp_filter,
  execvpe, fork,
}
use minion.Fds.{drop_fds}
use minion.Errors.{Error}
use minion.Jail.{Seccomp, JobStartupInfo}
use minion.Limits.Driver.{OpaqueEnterHandle, join, drop_handle}

abbrev pub sandbox_internal_uid : ℕ
sandbox_internal_uid = 179

pub record Stdio : Type 0 where
  pub stdin : ℕ
  pub stdout : ℕ
  pub stderr : ℕ

pub record JobOptions : Type 0 where
  pub exe : Text
  pub argv : List Text
  pub env : List Text
  pub stdio : Stdio
  pub extra : List (ℕ × ℕ)
  pub pwd : Text

pub record DoExecArg : Type 0 where
  pub path : Text
  pub arguments : List Text
  pub environment : List Text
  pub stdio : Stdio
  pub extra_fds : List (ℕ × ℕ)
  pub pwd : Text
  pub enter_handle : OpaqueEnterHandle
  pub setuid : Bool
  pub seccomp : Seccomp

-- `err_exit`: the first process of a namespace exits, any other panics.
unfoldable pub err_exit : {E A : Type 0} → Sys E A
err_exit = do pid ← sys_value getpid; if pid == 1 then leave 1 else abort

unfoldable pub has_nul : Text → Bool
has_nul [] = Bool.false
has_nul (c ∷ s) = let rest = has_nul s in if c == 0 then Bool.true else rest

-- `CString::new(…).unwrap()` panics at an inner zero byte.
unfoldable pub c_string : {E : Type 0} → Text → Sys E (Unit {0})
unfolding has_nul
c_string s = if has_nul s then abort else pure tt

-- `duplicate_string_list`
unfoldable pub duplicate_string_list : {E : Type 0} → List Text → Sys E (Unit {0})
unfolding c_string
duplicate_string_list [] = pure tt
duplicate_string_list (s ∷ rest) = c_string s >> duplicate_string_list rest

-- A descriptor that cannot be marked panics.
unfoldable pub cloexec_all : {E : Type 0} → List ℕ → Sys E (Unit {0})
cloexec_all [] = pure tt
cloexec_all (fd ∷ rest) = unwrap (sys (set_cloexec fd)) >> cloexec_all rest

unfoldable pub or_exit : {E : Type 0} → Result ℕ (Unit {0}) → Sys E (Unit {0})
unfolding err_exit
or_exit (success _) = pure tt
or_exit (failure errno) = err_exit

unfoldable pub become_internal_user : {E : Type 0} → Bool → Sys E (Unit {0})
unfolding or_exit
become_internal_user setuid_wanted =
    if setuid_wanted
    then ((attempt (sys (setgid sandbox_internal_uid)) >>= or_exit)
        >> (attempt (sys (setuid sandbox_internal_uid)) >>= or_exit))
    else pure tt

-- The results of `dup2` are not read.
unfoldable pub inherit : {E : Type 0} → List (ℕ × ℕ) → Sys E (Unit {0})
inherit [] = pure tt
inherit ((new_fd, cur_fd) ∷ rest) = ignore (sys (dup2 cur_fd new_fd)) >> inherit rest

-- `Seccomp::enable`; the length of the program has to fit 16 bits.
unfoldable pub enable : {E : Type 0} → Seccomp → Sys E (Unit {0})
enable s = do
  unwrap (sys no_new_privs)
  if ltb (length s.filter / 8) 65536
      then unwrap (sys (seccomp_filter (length s.filter / 8) s.filter))
      else abort

unfoldable pub exec_failed : {E : Type 0} → Result ℕ (Unit {0}) → Sys E ⊥
unfolding err_exit
exec_failed (success _) = abort
exec_failed (failure errno) = if errno == 2 then leave 108 else err_exit

-- The descriptors of the job on their final numbers, then the filter, then the program.
unfoldable pub launch : {E : Type 0} → DoExecArg → Sys E ⊥
unfolding inherit enable exec_failed
launch arg = do
  ignore (sys (dup2 arg.stdio.stdin 0))
  ignore (sys (dup2 arg.stdio.stdout 1))
  ignore (sys (dup2 arg.stdio.stderr 2))
  inherit arg.extra_fds
  enable arg.seccomp
  result ← attempt (sys_replace (execvpe arg.path (arg.path ∷ arg.arguments) arg.environment))
  exec_failed result

unfoldable pub do_exec : {E : Type 0} → DoExecArg → Sys E ⊥
unfolding c_string duplicate_string_list cloexec_all become_internal_user launch join
do_exec arg = do
  ignore (sys_number (dup 2))
  c_string arg.path
  duplicate_string_list (arg.path ∷ arg.arguments)
  duplicate_string_list arg.environment
  join arg.enter_handle
  fds ← unwrap (sys_numbers list_fds)
  cloexec_all fds
  c_string arg.pwd
  ignore (sys (chdir arg.pwd))
  become_internal_user arg.setuid
  launch arg

abbrev pub second_all : List (ℕ × ℕ) → List ℕ
second_all [] = []
second_all ((a, b) ∷ rest) = b ∷ second_all rest

-- What the parent drops when `spawn_job` returns: the descriptors of the job and the handle.
unfoldable pub release : {E : Type 0} → JobOptions → OpaqueEnterHandle → Sys E (Unit {0})
unfolding drop_handle
release o handle =
    drop_fds (o.stdio.stdin ∷ o.stdio.stdout ∷ o.stdio.stderr ∷ [])
    >> drop_handle handle
    >> drop_fds (second_all o.extra)

abbrev exec_arg : JobOptions → Bool → OpaqueEnterHandle → Seccomp → DoExecArg
exec_arg o setuid_wanted handle seccomp = record {
  path = o.exe;
  arguments = o.argv;
  environment = o.env;
  stdio = o.stdio;
  extra_fds = o.extra;
  pwd = o.pwd;
  enter_handle = handle;
  setuid = setuid_wanted;
  seccomp = seccomp;
}

-- `fork` yields zero in the child, which never returns.
unfoldable pub spawn_job :
    JobOptions → Bool → OpaqueEnterHandle → Seccomp → Sys Error JobStartupInfo
unfolding do_exec release
spawn_job o setuid_wanted handle seccomp = attempt (sys_number fork) >>= λ res. elim res [
  | failure errno ↦ release o handle >> lift (failure (Error.syscall errno))
  | success pid ↦
      if pid == 0
      then (do_exec (exec_arg o setuid_wanted handle seccomp) >>= λ never. absurd never)
      else (release o handle >> pure (record { pid = pid }))
]
