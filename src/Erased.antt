-- ===== src/Erased.antt =====
-- src/erased.rs over the traits of src/lib.rs. The objects behind an `Arc` or a `Box` live in a
-- world `W`, which an operation changes even if it fails; a handle is the object's address. A trait
-- is the record of its operations.
use minion.Base.{ℕ, ◌==◌, Bool, Option, Text, if◌then◌else◌}
use minion.Os.{Sys, Result, success, failure, pure, abort, ◌>>=◌}
use minion.Options.{SandboxOptions, ChildProcessOptions, ResourceUsageData, ExitCode}

-- The outcome of a call is a value, as its error is; only a panic ends it otherwise.
abbrev pub Op : Type 0 → Type 0 → Type 0 → Type 0
Op E W A = W → Sys ⊥ (Result E A × W)

-- `trait Sandbox`; what identifies the type is `TypeId`.
pub record Sandbox (E W : Type 0) : Type 0 where
  pub type_id : ℕ
  pub id : ℕ → Op E W Text
  pub check_cpu_tle : ℕ → Op E W Bool
  pub check_real_tle : ℕ → Op E W Bool
  pub kill : ℕ → Op E W (Unit {0})
  pub resource_usage : ℕ → Op E W ResourceUsageData

-- `trait ChildProcess`: a pipe is its descriptor, a future its address.
pub record ChildProcess (E W : Type 0) : Type 0 where
  pub stdin : ℕ → Op E W (Option ℕ)
  pub stdout : ℕ → Op E W (Option ℕ)
  pub stderr : ℕ → Op E W (Option ℕ)
  pub wait_for_exit : ℕ → Op E W ℕ

-- `trait Backend`; `ready` is the output of a future that is awaited until it is ready.
pub record Backend (E W : Type 0) : Type 0 where
  pub sandbox : Sandbox E W
  pub child : ChildProcess E W
  pub new_sandbox : SandboxOptions → Op E W ℕ
  pub spawn : ChildProcessOptions → ℕ → Op E W ℕ
  pub ready : ℕ → Op E W ExitCode

-- `Arc<dyn Sandbox>`, as far as `downcast` looks at it.
pub record DynSandbox : Type 0 where
  pub type_id : ℕ
  pub address : ℕ

abbrev pub mapped : {E F A : Type 0} → (E → F) → Result E A → Result F A
mapped f (success a) = success a
mapped f (failure e) = failure (f e)

-- `.map_err(Into::into)`
unfoldable pub map_into : {E F W A : Type 0} → (E → F) → Op E W A → Op F W A
map_into into op w = do (r, w') ← op w; pure (mapped into r, w')

abbrev pub wrapped : {F : Type 0} → ℕ → Result F ℕ → Result F DynSandbox
wrapped type_id (success address) = success (record { type_id = type_id; address = address })
wrapped type_id (failure e) = failure e

-- The operations of `erased::Backend`, `erased::Sandbox` and `erased::ChildProcess`.
pub record ErasedBackend (F W : Type 0) : Type 0 where
  pub new_sandbox : SandboxOptions → Op F W DynSandbox
  pub spawn : ChildProcessOptions → DynSandbox → Op F W ℕ
  pub check_cpu_tle : DynSandbox → Op F W Bool
  pub check_real_tle : DynSandbox → Op F W Bool
  pub kill : DynSandbox → Op F W (Unit {0})
  pub resource_usage : DynSandbox → Op F W ResourceUsageData
  pub stdin : ℕ → Op F W (Option ℕ)
  pub stdout : ℕ → Op F W (Option ℕ)
  pub stderr : ℕ → Op F W (Option ℕ)
  pub wait_for_exit : ℕ → Op F W ℕ
  pub ready : ℕ → Op F W ExitCode

module _ {E F W : Type 0} (into : E → F) (b : Backend E W) where
  unfoldable pub erased_new_sandbox : SandboxOptions → Op F W DynSandbox
  unfolding map_into
  erased_new_sandbox o w = do
    (r, w') ← map_into into (b.new_sandbox o) w
    pure (wrapped b.sandbox.type_id r, w')

  -- `downcast().expect(…)`
  unfoldable pub erased_spawn : ChildProcessOptions → DynSandbox → Op F W ℕ
  unfolding map_into
  erased_spawn o d w =
      if d.type_id == b.sandbox.type_id then map_into into (b.spawn o d.address) w else abort

  -- The blanket implementations for every backend.
  unfoldable pub erase : ErasedBackend F W
  unfolding erased_new_sandbox erased_spawn
  erase = record {
    new_sandbox = erased_new_sandbox;
    spawn = erased_spawn;
    check_cpu_tle = λ d. map_into into (b.sandbox.check_cpu_tle d.address);
    check_real_tle = λ d. map_into into (b.sandbox.check_real_tle d.address);
    kill = λ d. map_into into (b.sandbox.kill d.address);
    resource_usage = λ d. map_into into (b.sandbox.resource_usage d.address);
    stdin = λ c. map_into into (b.child.stdin c);
    stdout = λ c. map_into into (b.child.stdout c);
    stderr = λ c. map_into into (b.child.stderr c);
    wait_for_exit = λ c. map_into into (b.child.wait_for_exit c);
    ready = λ f. map_into into (b.ready f);
  }
