-- ===== src/Backend/Requests.antt =====
-- The calls of a client of src/linux.rs: the operations of `Backend`, `Sandbox` and `ChildProcess` of
-- src/lib.rs over a `LinuxBackend`, and the drops of its sandboxes.
use minion.Base.{ℕ, ◌≡◌, Bool}
use minion.Os.{Env, History, Sys, ok, pure, ◌>>=◌}
use minion.Options.{SandboxOptions, ChildProcessOptions}
use minion.Errors.{Error}
use minion.Jail.{JailOptions, ZygoteStartupInfo, Codecs}
use minion.Limits.Driver.{OpaqueEnterHandle}
use minion.Sandbox.Create.{Programs}
use minion.Backend
use minion.Backend.{
  LinuxBackend, at, put, linux, known, keep_sandbox, keep_child, keep_future, waiting, updated,
  changed,
}

-- A call of an operation of the traits `Backend`, `Sandbox` and `ChildProcess`, a wait for the
-- output of a future, and the drop of a sandbox.
pub data Request : Type 0 where
  new_sandbox : SandboxOptions → Request
  spawn : ChildProcessOptions → ℕ → Request
  id check_cpu_tle check_real_tle kill resource_usage : ℕ → Request
  stdin stdout stderr wait_for_exit ready : ℕ → Request
  drop_sandbox : Bool → ℕ → Request

module _ (gen : Programs) (start : JailOptions → OpaqueEnterHandle → Sys Error ZygoteStartupInfo)
    (codecs : Codecs) (draws : ℕ → ℕ → ℕ) (entered : Bool) where
  -- The state after a call, whatever it returned.
  unfoldable pub serve : Request → LinuxBackend → Sys ⊥ LinuxBackend
  serve (new_sandbox o) w = do r ← Backend.new_sandbox gen start codecs draws entered o w; pure r.1
  serve (spawn o i) w = do r ← Backend.spawn gen start codecs draws entered o i w; pure r.1
  serve (id i) w = do r ← Backend.id gen start codecs draws entered i w; pure r.1
  serve (check_cpu_tle i) w = do
    r ← Backend.check_cpu_tle gen start codecs draws entered i w
    pure r.1
  serve (check_real_tle i) w = do
    r ← Backend.check_real_tle gen start codecs draws entered i w
    pure r.1
  serve (kill i) w = do r ← Backend.kill gen start codecs draws entered i w; pure r.1
  serve (resource_usage i) w = do
    r ← Backend.resource_usage gen start codecs draws entered i w
    pure r.1
  serve (stdin i) w = do r ← Backend.stdin gen start codecs draws entered i w; pure r.1
  serve (stdout i) w = do r ← Backend.stdout gen start codecs draws entered i w; pure r.1
  serve (stderr i) w = do r ← Backend.stderr gen start codecs draws entered i w; pure r.1
  serve (wait_for_exit i) w = do
    r ← Backend.wait_for_exit gen start codecs draws entered i w
    pure r.1
  serve (ready f) w = do r ← Backend.ready gen start codecs draws entered f w; pure r.1
  serve (drop_sandbox keep i) w = do
    r ← Backend.drop_sandbox gen start codecs draws entered keep i w
    pure r.1

-- The states of a backend that was just made, in any system, after any calls in any order.
pub data Reach (gen : Programs)
    (start : JailOptions → OpaqueEnterHandle → Sys Error ZygoteStartupInfo) (codecs : Codecs)
    (draws : ℕ → ℕ → ℕ) (entered : Bool) (w : LinuxBackend) : LinuxBackend → Type 0 where
  here : Reach gen start codecs draws entered w w
  next :
      {x y : LinuxBackend}
      → Reach gen start codecs draws entered w x
      → (q : Request) (env : Env) (h : History)
      → (serve gen start codecs draws entered q x env h).0 ≡ ok y
      → Reach gen start codecs draws entered w y
