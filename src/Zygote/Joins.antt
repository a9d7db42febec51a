-- ===== src/Zygote/Joins.antt =====
-- How a process joins a resource group: `OpaqueEnterHandle::join` of src/linux/limits.rs with
-- src/linux/limits/cgroup_common.rs and src/linux/limits/prlimit.rs, and which calls of the process
-- of a job in src/linux/zygote.rs have to succeed.
use minion.Base.{ℕ, ◌∙◌, refl, Bool, true, false, List, [], ◌∷◌, Text, decimal}
use minion.Os.{Env, History, success, failure, Sys, lift, ◌>>=◌, ◌>>◌}
use minion.Os.Calls.{
  Call, write, close, getpid, setrlimit, address_data, processes, cpu_seconds, list_fds,
  set_cloexec, setgid, setuid, no_new_privs, seccomp_filter, execvpe,
}
use minion.Os.Traces.{
  Yields, Ends, Ends-err, Ends-exit, Yields-of, Yields-bind, Yields-then, Yields-pure, Yields-sys,
  Yields-ignore, Yields-sys_value, Yields-attempt,
}
use minion.Limits.Cgroup
use minion.Limits.Cgroup.{CgroupEnter, fds, write_pid, close_all}
use minion.Limits.Prlimit
use minion.Limits.Prlimit.{PrlimitEnter, cpu_usage_limit}
use minion.Limits.Driver.{
  OpaqueEnterHandle, cgroup_enter, prlimit_enter, join_inner, exit_on_failure, join,
}
use minion.Os.Laws.{>>-ok}
use minion.Zygote.Release.{closed, close_all_lem}

-- The calls whose failure keeps the program from running. The others are those of `dup`, `dup2`,
-- `chdir` and `close`, whose results nobody reads, and `getpid`, which cannot fail.
abbrev pub must_succeed : Call → Bool
must_succeed (write fd text) = true
must_succeed (setrlimit resource limit) = true
must_succeed list_fds = true
must_succeed (set_cloexec fd) = true
must_succeed (setgid gid) = true
must_succeed (setuid uid) = true
must_succeed no_new_privs = true
must_succeed (seccomp_filter n program) = true
must_succeed (execvpe path argv envp) = true
must_succeed _ = false

-- The histories that the parts of `do_exec` leave, the newest call first.
abbrev pub written : Text → List ℕ → History → History
written pid [] h = h
written pid (fd ∷ rest) h = written pid rest (write fd pid ∷ h)

abbrev pub joined : OpaqueEnterHandle → Env → History → History
joined (cgroup_enter e) env h =
    closed (fds e) (written (decimal (env.number h getpid)) (fds e) (getpid ∷ h))
joined (prlimit_enter e) env h =
    setrlimit cpu_seconds (cpu_usage_limit e.limits.cpu_usage)
    ∷ setrlimit processes e.limits.pids_max
    ∷ setrlimit address_data e.limits.memory_max
    ∷ h

module _ (env : Env) where
  abbrev pub Does : {E : Type 0} → Sys E (Unit {0}) → History → History → Type 0
  Does m h h' = Yields must_succeed env m h tt h'

  Yields-close_all :
      (E : Type 0) (handles : List ℕ) (h : History)
      → Does (close_all {E = E} handles) h (closed handles h)
  unfolding close_all
  Yields-close_all E [] h = Yields-pure must_succeed env tt h
  Yields-close_all E (fd ∷ rest) h =
      Yields-then must_succeed env (Yields-ignore must_succeed env (close fd) h refl)
        (Yields-close_all E rest (close fd ∷ h))

  Yields-write_pid :
      (pid : Text) (handles : List ℕ) (h : History)
      → Does (write_pid pid handles) h (written pid handles h)
  unfolding write_pid
  Yields-write_pid pid [] h = Yields-pure must_succeed env tt h
  Yields-write_pid pid (fd ∷ rest) h =
      Yields-then must_succeed env (Yields-sys must_succeed env (write fd pid) h)
        (Yields-write_pid pid rest (write fd pid ∷ h))

  -- A failed write is reported after the descriptors are closed.
  reported :
      (e : ℕ) (handles : List ℕ) (h : History)
      → Ends must_succeed env (close_all handles >> lift {A = Unit {0}} (failure e)) h
  reported e handles h = Ends-err must_succeed env {h' = closed handles h} {e = e} (
      >>-ok (close_all handles) (lift (failure e)) env h (close_all_lem ℕ handles env h)
      ∙ unfold ◌>>=◌ in refl)

  Yields-cgroup_join :
      (e : CgroupEnter) (h : History) → Does (Cgroup.join e) h (joined (cgroup_enter e) env h)
  unfolding Cgroup.join Cgroup.drop
  Yields-cgroup_join e h =
      Yields-bind must_succeed env _ (Yields-sys_value must_succeed env getpid h refl) (
        Yields-attempt must_succeed env _ _ _ _ tt tt (λ x g. reported x (fds e) g)
          (Yields-write_pid (decimal (env.number h getpid)) (fds e) (getpid ∷ h))
          (Yields-then must_succeed env {k = lift (success tt)} (Yields-close_all ℕ (fds e) _)
            (Yields-of must_succeed env refl (unfold ◌>>=◌ in refl))))

  Yields-prlimit_join :
      (e : PrlimitEnter) (h : History) → Does (Prlimit.join e) h (joined (prlimit_enter e) env h)
  unfolding Prlimit.join
  Yields-prlimit_join e h = Yields-then must_succeed env (Yields-sys must_succeed env _ h) (
      Yields-then must_succeed env (Yields-sys must_succeed env _ _)
        (Yields-sys must_succeed env _ _))

  Yields-join_inner :
      (handle : OpaqueEnterHandle) (h : History) → Does (join_inner handle) h (joined handle env h)
  unfolding join_inner
  Yields-join_inner (cgroup_enter e) h = Yields-cgroup_join e h
  Yields-join_inner (prlimit_enter e) h = Yields-prlimit_join e h

  module _ (E : Type 0) where
    pub Yields-join :
        (handle : OpaqueEnterHandle) (h : History)
        → Does (join {E = E} handle) h (joined handle env h)
    unfolding join exit_on_failure
    Yields-join handle h =
        Yields-attempt must_succeed env exit_on_failure _ _ _ tt tt
          (λ x g. Ends-exit must_succeed env {h' = g} {code = 1} (unfold ◌>>=◌ in refl))
          (Yields-join_inner handle h) (Yields-pure must_succeed env tt _)
