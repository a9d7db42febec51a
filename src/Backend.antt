-- ===== src/Backend.antt =====
-- src/linux.rs: `LinuxBackend`, and the objects that it creates, as an implementation of the traits
-- of src/lib.rs; with `pidfd_supported` of src/linux/check.rs and `WaitFuture` of src/linux/wait.rs.
pub mod Grants
pub mod Separation
pub mod Requests
pub mod Upkeep
pub mod Waits
pub mod Spent
pub mod Identifiers
mod Tests
use minion.Base.{
  ℕ, zero, suc, ◌==◌, Bool, true, false, Option, none, some, List, [], ◌∷◌, ◌++◌, Text, length,
  if◌then◌else◌,
}
use minion.Os.{
  Sys, Result, success, failure, pure, fail, abort, attempt, map_err, unwrap, sys, sys_number,
  sys_value, ignore, ◌>>=◌, ◌>>◌,
}
use minion.Os.Calls.{getppid, close, register_async}
use minion.Util.{pidfd_open, pidfd_send_signal}
use minion.Options.{SandboxOptions, ChildProcessOptions, ResourceUsageData, ExitCode, postprocess}
use minion.Settings
use minion.Settings.{Settings}
use minion.Errors.{Error}
use minion.Fds.{LinuxWritePipe, LinuxReadPipe, drop_fd}
use minion.Uids
use minion.Uids.{UidAllocator}
use minion.Jail.{JailOptions, ZygoteStartupInfo, Codecs, gen_jail_id}
use minion.Limits.Driver
use minion.Limits.Driver.{Driver, OpaqueEnterHandle}
use minion.Sandbox
use minion.Sandbox.{LinuxSandbox}
use minion.Sandbox.Create.{Programs, Created, create}
use minion.Sandbox.Jobs.{poll}
use minion.Child
use minion.Child.{LinuxChildProcess}
use minion.Erased.{Op, Backend}
use minion.Erased

-- EINVAL
invalid_argument : ℕ → Bool
invalid_argument errno = errno == 22

-- The check of `pidfd_supported`; its result is kept, so that it runs once.
unfoldable pub pidfd_check : Sys ℕ (Unit {0})
unfolding invalid_argument
pidfd_check = do
  me ← sys_value getppid
  pidfd ← pidfd_open me
  sent ← attempt (pidfd_send_signal pidfd 0)
  unwrap (sys (close pidfd))
  elim sent [
    | success _ ↦ pure tt
    | failure errno ↦ if invalid_argument errno then pure tt else fail errno
  ]

abbrev succeeded : {E A : Type 0} → Result E A → Bool
succeeded (success a) = true
succeeded (failure e) = false

unfoldable pub pidfd_supported : {E : Type 0} → Sys E Bool
unfolding pidfd_check
pidfd_supported = do r ← attempt pidfd_check; pure (succeeded r)

-- `run_all_feature_checks` of src/linux/check.rs
unfoldable pub run_all_feature_checks : {E : Type 0} → Sys E (Unit {0})
unfolding pidfd_supported
run_all_feature_checks = do supported ← pidfd_supported; pure tt

-- A future that waits for a child: the descriptor to wait on, the sandbox and the process.
pub record LinuxFuture : Type 0 where
  pub inner : ℕ
  pub sandbox : ℕ
  pub pid : ℕ

-- A backend with the objects that it created: the address of an object is its place in its list. A
-- child stands with the address of its sandbox.
pub record LinuxBackend : Type 0 where
  pub settings : Settings
  pub driver : Driver
  pub uid_alloc : UidAllocator
  pub sandboxes : List LinuxSandbox
  pub children : List (LinuxChildProcess × ℕ)
  pub futures : List LinuxFuture

module _ {A : Type 0} where
  unfoldable pub at : List A → ℕ → Option A
  at [] n = none
  at (x ∷ xs) zero = some x
  at (x ∷ xs) (suc n) = at xs n

  unfoldable pub put : List A → ℕ → A → List A
  put [] n a = []
  put (x ∷ xs) zero a = a ∷ xs
  put (x ∷ xs) (suc n) a = x ∷ put xs n a

unfoldable pub allocator : Option UidAllocator → Sys Error UidAllocator
allocator none = abort
allocator (some uids) = pure uids

-- `LinuxBackend::new`; the draws for the names of the access checks are an argument.
unfoldable pub new : (ℕ → Text) → Settings → Sys Error LinuxBackend
unfolding allocator run_all_feature_checks
new suffixes settings = do
  run_all_feature_checks
  driver ← Driver.new suffixes settings
  uids ← allocator (Uids.new settings.uid.low settings.uid.high)
  pure (record {
    settings = settings;
    driver = driver;
    uid_alloc = uids;
    sandboxes = [];
    children = [];
    futures = [];
  })

-- No address but those that the backend gave out can be formed.
unfoldable pub known : {A : Type 0} → Option A → Sys ⊥ A
known none = abort
known (some a) = pure a

-- `erased::setup`, with what `Settings::new` reads.
unfoldable pub setup : (ℕ → Text) → Option Text → Bool → Sys Error LinuxBackend
unfolding new
setup suffixes var have_root = new suffixes (Settings.new var have_root)

module _ (gen : Programs) (start : JailOptions → OpaqueEnterHandle → Sys Error ZygoteStartupInfo)
    (codecs : Codecs) (draws : ℕ → ℕ → ℕ) (entered : Bool) where
  unfoldable pub keep_sandbox :
      LinuxBackend → Result Error LinuxSandbox → Result Error ℕ × LinuxBackend
  keep_sandbox w (failure e) = (failure e, w)
  keep_sandbox w (success s) =
      (success (length w.sandboxes), record w { sandboxes = w.sandboxes ++ s ∷ [] })

  -- `new_sandbox`: the options are processed, and what the creation changed stays changed.
  unfoldable pub new_sandbox : SandboxOptions → Op Error LinuxBackend ℕ
  unfolding keep_sandbox
  new_sandbox o w = do
    let slot = length w.sandboxes
    c ←
        create gen start slot w.settings (postprocess o) (gen_jail_id (draws slot)) entered
          w.uid_alloc w.driver
    pure (keep_sandbox (record w { driver = c.driver; uid_alloc = c.uids }) c.result)

  unfoldable pub keep_child :
      LinuxBackend → ℕ → Result Error LinuxChildProcess → Result Error ℕ × LinuxBackend
  keep_child w sandbox (failure e) = (failure e, w)
  keep_child w sandbox (success c) =
      (success (length w.children), record w { children = w.children ++ (c, sandbox) ∷ [] })

  unfoldable pub spawn : ChildProcessOptions → ℕ → Op Error LinuxBackend ℕ
  unfolding known keep_child
  spawn o sandbox w = do
    s ← known (at w.sandboxes sandbox)
    r ← attempt (Child.spawn codecs s.zygote o)
    pure (keep_child w sandbox r)

  -- The operations of a sandbox, which change it.
  unfoldable pub updated :
      {A : Type 0} → LinuxBackend → ℕ → LinuxSandbox × A → Result Error A × LinuxBackend
  updated w i (s, a) = (success a, record w { sandboxes = put w.sandboxes i s })

  unfoldable pub check_cpu_tle : ℕ → Op Error LinuxBackend Bool
  unfolding known updated
  check_cpu_tle i w = do s ← known (at w.sandboxes i); pure (updated w i (Sandbox.check_cpu_tle s))

  unfoldable pub check_real_tle : ℕ → Op Error LinuxBackend Bool
  unfolding known updated
  check_real_tle i w = do
    s ← known (at w.sandboxes i)
    pure (updated w i (Sandbox.check_real_tle s))

  unfoldable pub kill : ℕ → Op Error LinuxBackend (Unit {0})
  unfolding known updated
  kill i w = do s ← known (at w.sandboxes i); s' ← Sandbox.kill s; pure (updated w i (s', tt))

  -- The drop of the last reference to a sandbox, of which nothing is left; its place stays, so that
  -- the addresses of the others do.
  unfoldable pub drop_sandbox : Bool → ℕ → Op Error LinuxBackend (Unit {0})
  unfolding known
  drop_sandbox keep_cgroups i w = do
    s ← known (at w.sandboxes i)
    (uids, driver) ← Sandbox.drop keep_cgroups s w.uid_alloc w.driver
    pure (
      success tt,
      record w {
        uid_alloc = uids;
        driver = driver;
        sandboxes = put w.sandboxes i (record s { zygote = none; dealloc_uid = none });
      },
    )

  unfoldable pub resource_usage : ℕ → Op Error LinuxBackend ResourceUsageData
  unfolding known
  resource_usage i w = do
    s ← known (at w.sandboxes i)
    r ← attempt (Sandbox.resource_usage codecs w.driver s)
    pure (r, w)

  unfoldable pub id : ℕ → Op Error LinuxBackend Text
  unfolding known
  id i w = do s ← known (at w.sandboxes i); pure (success s.id, w)

  -- The operations of a child.
  unfoldable pub changed :
      {A : Type 0} → LinuxBackend → ℕ → ℕ → LinuxChildProcess × A → Result Error A × LinuxBackend
  changed w i sandbox (c, a) = (success a, record w { children = put w.children i (c, sandbox) })

  abbrev pub write_fd : LinuxChildProcess × Option LinuxWritePipe → LinuxChildProcess × Option ℕ
  write_fd (c, none) = (c, none)
  write_fd (c, some p) = (c, some p.fd)

  abbrev pub read_fd : LinuxChildProcess × Option LinuxReadPipe → LinuxChildProcess × Option ℕ
  read_fd (c, none) = (c, none)
  read_fd (c, some p) = (c, some p.fd)

  unfoldable pub stdin : ℕ → Op Error LinuxBackend (Option ℕ)
  unfolding known changed
  stdin i w = do
    (c, sandbox) ← known (at w.children i)
    pure (changed w i sandbox (write_fd (Child.take_stdin c)))

  unfoldable pub stdout : ℕ → Op Error LinuxBackend (Option ℕ)
  unfolding known changed
  stdout i w = do
    (c, sandbox) ← known (at w.children i)
    pure (changed w i sandbox (read_fd (Child.take_stdout c)))

  unfoldable pub stderr : ℕ → Op Error LinuxBackend (Option ℕ)
  unfolding known changed
  stderr i w = do
    (c, sandbox) ← known (at w.children i)
    pure (changed w i sandbox (read_fd (Child.take_stderr c)))

  register : ℕ → Sys ⊥ (Result Error ℕ)
  register fd = attempt (map_err Error.io (sys (register_async fd))) >>= λ r. elim r [
    | failure e ↦ drop_fd fd >> pure (failure e)
    | success _ ↦ pure (success fd)
  ]

  -- `WaitFuture::new`: a descriptor that cannot be registered is dropped. `AsyncFd::new` of tokio
  -- panics outside of the context of a runtime; `entered` is whether the caller is inside of one.
  unfoldable pub new_future : ℕ → Sys ⊥ (Result Error ℕ)
  unfolding register
  new_future fd = if entered then register fd else abort

  unfoldable pub keep_future : LinuxBackend → ℕ → ℕ → Result Error ℕ → Result Error ℕ × LinuxBackend
  keep_future w sandbox pid (failure e) = (failure e, w)
  keep_future w sandbox pid (success fd) = (
    success (length w.futures),
    record w { futures = w.futures ++ record { inner = fd; sandbox = sandbox; pid = pid } ∷ [] },
  )

  -- The child's descriptor is taken whether or not it can be registered.
  unfoldable pub waiting :
      ℕ → LinuxBackend → Option (LinuxChildProcess × ℕ) → Sys ⊥ (Result Error ℕ × LinuxBackend)
  unfolding new_future keep_future
  waiting i w none = abort
  waiting i w (some (c, sandbox)) = do
    (c', fd) ← Child.wait_for_exit c
    r ← new_future fd
    pure (keep_future (record w { children = put w.children i (c', sandbox) }) sandbox c.pid r)

  unfoldable pub wait_for_exit : ℕ → Op Error LinuxBackend ℕ
  unfolding waiting
  wait_for_exit i w = waiting i w (at w.children i)

  -- The output of a future once its descriptor is ready.
  unfoldable pub ready : ℕ → Op Error LinuxBackend ExitCode
  unfolding known
  ready f w = do
    future ← known (at w.futures f)
    s ← known (at w.sandboxes future.sandbox)
    polled ← poll codecs (some (success tt)) s.zygote future.pid
    code ← known polled
    pure (code, w)

  unfoldable pub linux : ℕ → Backend Error LinuxBackend
  linux type_id = record {
    sandbox = record {
      type_id = type_id;
      id = id;
      check_cpu_tle = check_cpu_tle;
      check_real_tle = check_real_tle;
      kill = kill;
      resource_usage = resource_usage;
    };
    child = record {
      stdin = stdin;
      stdout = stdout;
      stderr = stderr;
      wait_for_exit = wait_for_exit;
    };
    new_sandbox = new_sandbox;
    spawn = spawn;
    ready = ready;
  }
