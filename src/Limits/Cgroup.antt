-- ===== src/Limits/Cgroup.antt =====
-- src/linux/limits/cgroup_common.rs: how a process joins a cgroup through descriptors that were
-- opened before, and what dropping such a handle does.
use minion.Base.{ℕ, ◌==◌, Bool, Option, none, some, List, [], ◌∷◌, Text, decimal, if◌then◌else◌}
use minion.Os.{Sys, success, failure, pure, lift, attempt, ignore, sys, sys_value, ◌>>=◌, ◌>>◌}
use minion.Os.Calls.{write, close, getpid}

pub data CgroupEnter : Type 0 where
  v1 : List ℕ → CgroupEnter
  v2 : ℕ → CgroupEnter

-- `CgroupEnter::with`: the descriptors in order.
unfoldable pub fds : CgroupEnter → List ℕ
fds (v1 handles) = handles
fds (v2 handle) = handle ∷ []

-- EINVAL
unfoldable pub is_einval : ℕ → Bool
is_einval errno = errno == 22

-- The loop of `join`: the first error ends it.
unfoldable pub write_pid : Text → List ℕ → Sys ℕ (Unit {0})
write_pid pid [] = pure tt
write_pid pid (fd ∷ rest) = sys (write fd pid) >> write_pid pid rest

-- `Drop for CgroupEnter`; errors of `close` are ignored.
unfoldable pub close_all : {E : Type 0} → List ℕ → Sys E (Unit {0})
close_all [] = pure tt
close_all (fd ∷ rest) = ignore (sys (close fd)) >> close_all rest

unfoldable pub drop : {E : Type 0} → CgroupEnter → Sys E (Unit {0})
unfolding fds close_all
drop e = close_all (fds e)

-- `EnterHandle::join`, which takes the handle and so drops it at its end.
unfoldable pub join : CgroupEnter → Sys ℕ (Unit {0})
unfolding fds write_pid drop
join e = do
  my_pid ← sys_value getpid
  result ← attempt (write_pid (decimal my_pid) (fds e))
  drop e
  lift result

-- The loop of `check_access`: every descriptor is tried, and the last error that is not EINVAL is
-- kept.
unfoldable pub probe : {E : Type 0} → Option ℕ → List ℕ → Sys E (Option ℕ)
unfolding is_einval
probe last [] = pure last
probe last (fd ∷ rest) = do
  result ← attempt (sys (write fd []))
  probe
      (elim result [
        | success _ ↦ last
        | failure errno ↦ if is_einval errno then last else some errno
      ])
      rest

unfoldable pub check_access : CgroupEnter → Sys ℕ (Unit {0})
unfolding fds probe
check_access e = do
  last ← probe none (fds e)
  lift (elim last [ none ↦ success tt | some errno ↦ failure errno ])
