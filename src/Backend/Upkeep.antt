-- ===== src/Backend/Upkeep.antt =====
-- Why each call of src/linux.rs keeps the user identifiers of the sandboxes apart.
use minion.Base.{ℕ, ◌≡◌, refl, Bool, Option, none, some, length}
use minion.Os.{Sys, Result, success, failure, pure, abort, ◌>>=◌}
use minion.Os.Ensures.{
  Ensures, Ensures-pure, Ensures-abort, Ensures-bind, Ensures-chain, Ensures-then,
}
use minion.Options.{SandboxOptions, postprocess}
use minion.Errors.{Error}
use minion.Uids.{UidAllocator, deallocate}
use minion.Jail.{JailOptions, ZygoteStartupInfo, Codecs, gen_jail_id}
use minion.Limits.Driver.{Driver, OpaqueEnterHandle}
use minion.Sandbox
use minion.Sandbox.{LinuxSandbox, poll_state, reclaim_uid}
use minion.Sandbox.Create.{Programs, Created}
use minion.Child.{LinuxChildProcess}
use minion.Backend
use minion.Backend.{
  LinuxBackend, at, put, linux, known, keep_sandbox, keep_child, keep_future, waiting, updated,
  changed,
}
use minion.Backend.Grants.{Granted, create-Granted}
use minion.Backend.Separation.{
  IsSeparate, IsSeparate-append, IsSeparate-put, IsSeparate-Extends, Released, IsSeparate-drop,
}
use minion.Backend.Requests.{
  Request, serve, new_sandbox, spawn, id, check_cpu_tle, check_real_tle, kill, resource_usage,
  stdin, stdout, stderr, wait_for_exit, ready, drop_sandbox,
}

abbrev pub Separate : LinuxBackend → Type 0
Separate w = IsSeparate w.uid_alloc w.sandboxes

module _ {A : Type 0} (Q : A → Type 0) where
  pub known-Ensures : (o : Option A) → ((a : A) → o ≡ some a → Q a) → Ensures Q (known o)
  unfolding known
  known-Ensures none q = Ensures-abort ⊥ Q
  known-Ensures (some a) q = Ensures-pure ⊥ Q a (q a refl)

-- `elim` of an option where there has to be a value, as `reclaim_uid` has it.
given :
    {A : Type 0} {Q : A → Type 0} (o : Option A)
    → ((a : A) → o ≡ some a → Q a)
    → Ensures {E = ⊥} Q (elim o [ none ↦ abort | some a ↦ pure a ])
given {Q = Q} none q = Ensures-abort ⊥ Q
given {Q = Q} (some a) q = Ensures-pure ⊥ Q a (q a refl)

-- What an operation leaves behind.
abbrev After : {A : Type 0} → Result Error A × LinuxBackend → Type 0
After r = Separate r.1

module _ {A : Type 0} where
  served :
      (m : Sys ⊥ (Result Error A × LinuxBackend))
      → Ensures After m
      → Ensures Separate (m >>= λ r. pure r.1)
  served m p = Ensures-chain After Separate m _ p λ r v. Ensures-pure ⊥ Separate r.1 v

module _ (gen : Programs) (start : JailOptions → OpaqueEnterHandle → Sys Error ZygoteStartupInfo)
    (codecs : Codecs) (draws : ℕ → ℕ → ℕ) (entered : Bool) where
  keep_sandbox-After :
      (w : LinuxBackend) (c : Created) (r : Result Error LinuxSandbox)
      → c.result ≡ r
      → Granted w.uid_alloc c
      → Separate w
      → After (
          keep_sandbox gen start codecs draws entered
            (record w { driver = c.driver; uid_alloc = c.uids })
            r)
  unfolding keep_sandbox
  keep_sandbox-After w c (failure e) same g v =
      IsSeparate-Extends w.uid_alloc c.uids w.sandboxes g.extends v
  keep_sandbox-After w c (success s) same g v =
      IsSeparate-append w.uid_alloc c.uids w.sandboxes s g.extends (λ u. g.fresh s u same) v

  new_sandbox-After :
      (o : SandboxOptions) (w : LinuxBackend)
      → Separate w
      → Ensures After (Backend.new_sandbox gen start codecs draws entered o w)
  unfolding Backend.new_sandbox
  new_sandbox-After o w v =
      Ensures-chain (Granted w.uid_alloc) After _ _
        (create-Granted gen start (length w.sandboxes) w.settings (postprocess o)
          (gen_jail_id (draws (length w.sandboxes))) entered w.uid_alloc w.driver)
        λ c g. Ensures-pure ⊥ After _ (keep_sandbox-After w c c.result refl g v)

  updated-After :
      {A : Type 0} (w : LinuxBackend) (i : ℕ) (old s : LinuxSandbox) (a : A)
      → at w.sandboxes i ≡ some old
      → s.dealloc_uid ≡ old.dealloc_uid
      → Separate w
      → After (updated gen start codecs draws entered w i (s, a))
  unfolding updated
  updated-After w i old s a e same v = IsSeparate-put w.uid_alloc w.sandboxes i old s e same v

  check_cpu_tle-After :
      (i : ℕ) (w : LinuxBackend)
      → Separate w
      → Ensures After (Backend.check_cpu_tle gen start codecs draws entered i w)
  unfolding Backend.check_cpu_tle Sandbox.check_cpu_tle poll_state
  check_cpu_tle-After i w v =
      Ensures-chain (λ s. at w.sandboxes i ≡ some s) After _ _
        (known-Ensures (λ s. at w.sandboxes i ≡ some s) (at w.sandboxes i) (λ s e. e))
        λ s e.
          Ensures-pure ⊥ After _ (
            updated-After {A = Bool} w i s (poll_state s) (poll_state s).state.was_cpu_tle e refl v)

  check_real_tle-After :
      (i : ℕ) (w : LinuxBackend)
      → Separate w
      → Ensures After (Backend.check_real_tle gen start codecs draws entered i w)
  unfolding Backend.check_real_tle Sandbox.check_real_tle poll_state
  check_real_tle-After i w v =
      Ensures-chain (λ s. at w.sandboxes i ≡ some s) After _ _
        (known-Ensures (λ s. at w.sandboxes i ≡ some s) (at w.sandboxes i) (λ s e. e))
        λ s e.
          Ensures-pure ⊥ After _ (
            updated-After {A = Bool} w i s (poll_state s) (poll_state s).state.was_wall_tle e refl
              v)

  kill_keeps :
      (s : LinuxSandbox) → Ensures {E = ⊥} (λ s'. s'.dealloc_uid ≡ s.dealloc_uid) (Sandbox.kill s)
  unfolding Sandbox.kill
  kill_keeps s =
      Ensures-then (λ s'. s'.dealloc_uid ≡ s.dealloc_uid) _ _
        (Ensures-pure ⊥ (λ s'. s'.dealloc_uid ≡ s.dealloc_uid) _ refl)

  kill-After :
      (i : ℕ) (w : LinuxBackend)
      → Separate w
      → Ensures After (Backend.kill gen start codecs draws entered i w)
  unfolding Backend.kill
  kill-After i w v =
      Ensures-chain (λ s. at w.sandboxes i ≡ some s) After _ _
        (known-Ensures (λ s. at w.sandboxes i ≡ some s) (at w.sandboxes i) (λ s e. e))
        λ s e.
          Ensures-chain (λ s'. s'.dealloc_uid ≡ s.dealloc_uid) After _ _ (kill_keeps s)
            λ s' same. Ensures-pure ⊥ After _ (updated-After w i s s' tt e same v)

  reclaim_uid-Released :
      (a : UidAllocator) (uid : Option ℕ)
      → Ensures {E = ⊥} (λ b. Released a b uid) (reclaim_uid uid a)
  unfolding reclaim_uid
  reclaim_uid-Released a none = Ensures-pure ⊥ (λ b. b ≡ a) a refl
  reclaim_uid-Released a (some u) = given (deallocate a u) (λ b e. e)

  drop-Released :
      (keep : Bool) (s : LinuxSandbox) (a : UidAllocator) (driver : Driver)
      → Ensures {E = ⊥} (λ r. Released a r.0 s.dealloc_uid) (Sandbox.drop keep s a driver)
  unfolding Sandbox.drop
  drop-Released keep s a driver =
      let P : UidAllocator × Driver → Type 0 = λ r. Released a r.0 s.dealloc_uid in
      Ensures-chain (λ b. Released a b s.dealloc_uid) P _ _ (reclaim_uid-Released a s.dealloc_uid)
        λ b e. Ensures-bind P _ _ λ s'. Ensures-bind P _ _ λ d. Ensures-pure ⊥ P _ e

  drop_sandbox-After :
      (keep : Bool) (i : ℕ) (w : LinuxBackend)
      → Separate w
      → Ensures After (Backend.drop_sandbox gen start codecs draws entered keep i w)
  unfolding Backend.drop_sandbox
  drop_sandbox-After keep i w v =
      Ensures-chain (λ s. at w.sandboxes i ≡ some s) After _ _
        (known-Ensures (λ s. at w.sandboxes i ≡ some s) (at w.sandboxes i) (λ s e. e))
        λ s e.
          Ensures-chain (λ r. Released w.uid_alloc r.0 s.dealloc_uid) After _ _
            (drop-Released keep s w.uid_alloc w.driver)
            λ r released. Ensures-pure ⊥ After _ (
              IsSeparate-drop w.uid_alloc r.0 w.sandboxes i s
                (record s { zygote = none; dealloc_uid = none }) e refl released v)

  keep_child-After :
      (w : LinuxBackend) (i : ℕ) (r : Result Error LinuxChildProcess)
      → Separate w
      → After (keep_child gen start codecs draws entered w i r)
  unfolding keep_child
  keep_child-After w i (failure e) v = v
  keep_child-After w i (success c) v = v

  keep_future-After :
      (w : LinuxBackend) (i pid : ℕ) (r : Result Error ℕ)
      → Separate w
      → After (keep_future gen start codecs draws entered w i pid r)
  unfolding keep_future
  keep_future-After w i pid (failure e) v = v
  keep_future-After w i pid (success fd) v = v

  waiting-After :
      (i : ℕ) (w : LinuxBackend) (c : Option (LinuxChildProcess × ℕ))
      → Separate w
      → Ensures After (waiting gen start codecs draws entered i w c)
  unfolding waiting
  waiting-After i w none v = Ensures-abort ⊥ After
  waiting-After i w (some (c, s)) v = Ensures-bind After _ _ λ (c', fd).
      Ensures-bind After _ _ λ r. Ensures-pure ⊥ After _ (keep_future-After _ s c.pid r v)

  pub serve-Separate :
      (q : Request) (w : LinuxBackend)
      → Separate w
      → Ensures Separate (serve gen start codecs draws entered q w)
  unfolding serve
  serve-Separate (new_sandbox o) w v = served _ (new_sandbox-After o w v)
  serve-Separate (check_cpu_tle i) w v = served _ (check_cpu_tle-After i w v)
  serve-Separate (check_real_tle i) w v = served _ (check_real_tle-After i w v)
  serve-Separate (kill i) w v = served _ (kill-After i w v)
  serve-Separate (drop_sandbox keep i) w v = served _ (drop_sandbox-After keep i w v)
  serve-Separate (wait_for_exit i) w v =
      served _ (unfold Backend.wait_for_exit in waiting-After i w (at w.children i) v)
  serve-Separate (spawn o i) w v = served _ (
      unfold Backend.spawn in
      Ensures-bind After _ _
        λ s. Ensures-bind After _ _ λ r. Ensures-pure ⊥ After _ (keep_child-After w i r v))
  serve-Separate (id i) w v =
      served _ (unfold Backend.id in Ensures-bind After _ _ λ s. Ensures-pure ⊥ After _ v)
  serve-Separate (resource_usage i) w v = served _ (
      unfold Backend.resource_usage in
      Ensures-bind After _ _ λ s. Ensures-bind After _ _ λ r. Ensures-pure ⊥ After _ v)
  serve-Separate (stdin i) w v =
      served _
        (unfold Backend.stdin changed in Ensures-bind After _ _ λ c. Ensures-pure ⊥ After _ v)
  serve-Separate (stdout i) w v =
      served _
        (unfold Backend.stdout changed in Ensures-bind After _ _ λ c. Ensures-pure ⊥ After _ v)
  serve-Separate (stderr i) w v =
      served _
        (unfold Backend.stderr changed in Ensures-bind After _ _ λ c. Ensures-pure ⊥ After _ v)
  serve-Separate (ready f) w v = served _ (
      unfold Backend.ready in
      Ensures-bind After _ _ λ future.
        Ensures-bind After _ _
          λ s. Ensures-bind After _ _ λ p. Ensures-bind After _ _ λ c. Ensures-pure ⊥ After _ v)
