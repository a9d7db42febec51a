-- ===== src/Ffi/Process.antt =====
-- minion-ffi/src/lib.rs: the start of a process, and the wait for it with a time limit.
use minion.Base.{ℕ, Bool, true, false, Option, none, some, []}
use minion.Os.{Sys, Result, success, failure, pure, ◌>>=◌}
use minion.Options
use minion.Options.{InputSpecification, OutputSpecification}
use minion.Erased.{ErasedBackend}
use minion.Ffi.{ErrorCode, ok, WaitOutcome, exited, timeout, TimeSpec, ChildProcessOptions}
use minion.Ffi.Memory.{
  Memory, Read, value, after, get_string, arguments, environment, address_space,
}
use minion.Ffi.Objects.{
  Object, backend, sandbox, child, Library, Answer, returned, undefined_behaviour, lookup, Call,
  in_world, made,
}

-- The options that `minion_cp_spawn` reads from the memory.
unfoldable pub process_options : Memory → ChildProcessOptions → Read Options.ChildProcessOptions
process_options mem o = after (arguments mem address_space o.argv) λ args.
    after (environment mem address_space o.envp) λ env. after (get_string mem o.image_path) λ path.
      after (get_string mem o.workdir) λ pwd. value (record {
        path = path;
        arguments = args;
        environment = env;
        stdio = record {
          stdin = InputSpecification.handle (record { raw = o.stdio.stdin });
          stdout = OutputSpecification.handle (record { raw = o.stdio.stdout });
          stderr = OutputSpecification.handle (record { raw = o.stdio.stderr });
        };
        extra_inherit = [];
        pwd = pwd;
      })

module _ {F W : Type 0} (b : ErasedBackend F W) where
  -- The sandbox that the options point to has to be one of the library's. The process lives in its
  -- world, also if that is another than the backend's: `spawn` of src/linux.rs reads no backend.
  spawn_in : Memory → ChildProcessOptions → ℕ → Option Object → Call W ℕ
  unfolding process_options
  spawn_in mem o fresh (some (sandbox j d)) l =
      made fresh j (child j) (λ options. b.spawn options d) (process_options mem o) l
  spawn_in mem o fresh _ l = pure (undefined_behaviour, l)

  unfoldable pub cp_spawn : Memory → ℕ → ChildProcessOptions → ℕ → Call W ℕ
  unfolding spawn_in
  cp_spawn mem p o fresh l = elim (lookup p l.boxes) [
    | some (backend k) ↦ spawn_in mem o fresh (lookup o.sandbox l.boxes) l
    | _ ↦ pure (undefined_behaviour, l)
  ]

  unfoldable pub outcome_of : {A : Type 0} → Result F A × Library W → Answer WaitOutcome × Library W
  outcome_of (failure e, l) = (returned ErrorCode.minion_error none, l)
  outcome_of (success code, l) = (returned ok (some exited), l)

  -- What follows the start of the wait. `elapses` is whether the time limit ends first.
  unfoldable pub waited :
      ℕ → Bool → Option TimeSpec → Result F ℕ × Library W → Sys ⊥ (Answer WaitOutcome × Library W)
  unfolding outcome_of
  waited k elapses limit (failure e, l) = pure (returned ErrorCode.minion_error none, l)
  waited k true (some t) (success f, l) = pure (returned ok (some timeout), l)
  waited k false (some t) (success f, l) = do r ← in_world k (b.ready f) l; pure (outcome_of r)
  waited k elapses none (success f, l) = do r ← in_world k (b.ready f) l; pure (outcome_of r)

  unfoldable pub wait_on : Bool → Option TimeSpec → Option Object → Call W WaitOutcome
  unfolding waited
  wait_on elapses limit (some (child k c)) l = do
    r ← in_world k (b.wait_for_exit c) l
    waited k elapses limit r
  wait_on elapses limit _ l = pure (undefined_behaviour, l)

  unfoldable pub cp_wait : ℕ → Bool → Option TimeSpec → Call W WaitOutcome
  unfolding wait_on
  cp_wait cp elapses limit l = wait_on elapses limit (lookup cp l.boxes) l
