-- ===== src/Zygote/Release.antt =====
-- What the zygote closes after it started a job with `spawn_job` of src/linux/zygote.rs.
use minion.Base.{
  ℕ, ◌≡◌, ◌≢◌, refl, sym, ap, ◌∙◌, none, List, [], ◌∷◌, ◌++◌, false, inl, inr, Option-cases, ◌==◌,
  arith, Bool,
}
use minion.Os.{Env, History, ok, success, pure, attempt, sys_number, ignore, sys, ◌>>=◌, ◌>>◌}
use minion.Os.Laws.{>>=-ok, >>-ok}
use minion.Os.Calls.{close, fork}
use minion.Fds.{drop_fd, drop_fds}
use minion.Errors.{Error}
use minion.Jail.{Seccomp}
use minion.Limits.Cgroup
use minion.Limits.Driver.{OpaqueEnterHandle, cgroup_enter, prlimit_enter, drop_handle}
use minion.Zygote.Exec.{JobOptions, second_all, release, spawn_job}

-- The history after the descriptors were closed, in order.
abbrev pub closed : List ℕ → History → History
closed [] h = h
closed (fd ∷ rest) h = closed rest (close fd ∷ h)

closed-append : (xs ys : List ℕ) (h : History) → closed (xs ++ ys) h ≡ closed ys (closed xs h)
closed-append [] ys h = refl
closed-append (x ∷ xs) ys h = closed-append xs ys (close x ∷ h)

-- The descriptors of a handle.
abbrev pub handle_fds : OpaqueEnterHandle → List ℕ
handle_fds (cgroup_enter e) = Cgroup.fds e
handle_fds (prlimit_enter e) = []

pub close_all_lem :
    (E : Type 0) (fds : List ℕ) (env : Env) (h : History)
    → Cgroup.close_all {E = E} fds env h ≡ (ok tt, closed fds h)
unfolding Cgroup.close_all
close_all_lem E [] env h = unfold ◌>>=◌ in refl
close_all_lem E (fd ∷ rest) env h =
    >>-ok (ignore (sys (close fd))) (Cgroup.close_all rest) env h {h' = close fd ∷ h}
      (elim (Option-cases (env.status h (close fd))) [
        | inl s ↦ unfold ◌>>=◌ in rw s
        | inr (errno, s) ↦ unfold ◌>>=◌ in rw s
      ])
    ∙ close_all_lem E rest env (close fd ∷ h)

drop_handle_lem :
    (E : Type 0) (handle : OpaqueEnterHandle) (env : Env) (h : History)
    → drop_handle {E = E} handle env h ≡ (ok tt, closed (handle_fds handle) h)
unfolding drop_handle Cgroup.drop
drop_handle_lem E (cgroup_enter e) env h = close_all_lem E (Cgroup.fds e) env h
drop_handle_lem E (prlimit_enter e) env h = unfold ◌>>=◌ in refl

module _ (E : Type 0) (env : Env)
    (closes : (h : History) (fd : ℕ) → env.status h (close fd) ≡ none) where
  drop_fds_lem : (fds : List ℕ) (h : History) → drop_fds {E = E} fds env h ≡ (ok tt, closed fds h)
  unfolding drop_fds drop_fd
  drop_fds_lem [] h = unfold ◌>>=◌ in refl
  drop_fds_lem (fd ∷ rest) h =
      >>-ok (drop_fd fd) (drop_fds rest) env h {h' = close fd ∷ h}
        (unfold ◌>>=◌ in rw (closes h fd))
      ∙ drop_fds_lem rest (close fd ∷ h)

  release_lem :
      (o : JobOptions) (handle : OpaqueEnterHandle) (h : History)
      → release {E = E} o handle env h ≡ (
        ok tt,
        closed (second_all o.extra) (
            closed
              (handle_fds handle)
              (closed (o.stdio.stdin ∷ o.stdio.stdout ∷ o.stdio.stderr ∷ []) h)),
      )
  unfolding release
  release_lem o handle h =
      let streams = o.stdio.stdin ∷ o.stdio.stdout ∷ o.stdio.stderr ∷ [] in
      >>-ok (drop_fds streams >> drop_handle handle) (drop_fds (second_all o.extra)) env h (
        >>-ok (drop_fds streams) (drop_handle handle) env h (drop_fds_lem streams h)
        ∙ drop_handle_lem E handle env (closed streams h))
      ∙ drop_fds_lem (second_all o.extra) (closed (handle_fds handle) (closed streams h))

forked :
    (E : Type 0) (env : Env) (h : History)
    → env.status h fork ≡ none
    → attempt {F = E} (sys_number fork) env h ≡ (ok (success (env.number h fork)), fork ∷ h)
unfolding ◌>>=◌
forked E env h forks = rw forks refl

-- If the kernel lets every descriptor be closed, then after a successful fork the zygote has closed
-- the descriptors of the job, all and only those, and also those of the handle that it was given,
-- which stand for the sandbox's group; the result is the number of the new process.
pub spawn_job-closes :
    (o : JobOptions) (setuid_wanted : Bool) (handle : OpaqueEnterHandle) (seccomp : Seccomp)
    (env : Env) (h : History)
    → ((h' : History) (fd : ℕ) → env.status h' (close fd) ≡ none)
    → env.status h fork ≡ none
    → env.number h fork ≢ 0
    → spawn_job o setuid_wanted handle seccomp env h ≡ (
      ok (record { pid = env.number h fork }),
      closed
          ((o.stdio.stdin ∷ o.stdio.stdout ∷ o.stdio.stderr ∷ handle_fds handle)
            ++ second_all o.extra)
          (fork ∷ h),
    )
unfolding spawn_job
spawn_job-closes o setuid_wanted handle seccomp env h closes forks parent =
    let not_child : (env.number h fork == 0) ≡ false = ground arith in
    let streams = o.stdio.stdin ∷ o.stdio.stdout ∷ o.stdio.stderr ∷ [] in
    >>=-ok (attempt (sys_number fork)) _ env h (forked Error env h forks)
    ∙ rw not_child (
        >>-ok (release o handle) (pure (record { pid = env.number h fork })) env (fork ∷ h)
          (release_lem Error env closes o handle (fork ∷ h))
        ∙ (unfold ◌>>=◌ in
            ap (λ l. (ok (record { pid = env.number h fork }), l))
              (sym (
                closed-append (handle_fds handle) (second_all o.extra)
                  (closed streams (fork ∷ h))))))
