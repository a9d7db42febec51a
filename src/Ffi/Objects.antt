-- ===== src/Ffi/Objects.antt =====
-- minion-ffi/src/lib.rs: the objects behind the pointers that the library gives to C code, and the
-- functions on backends and sandboxes. A backend that `minion::erased::setup` makes is a world of
-- its own, which its sandboxes keep alive. `fresh` is the address of a new box.
use minion.Base.{
  ℕ, ◌==◌, Bool, true, false, Option, none, some, List, [], ◌∷◌, ◌++◌, Text, length, if◌then◌else◌,
}
use minion.Os.{Sys, Result, success, failure, pure, abort, ◌>>=◌}
use minion.Options
use minion.Erased.{Op, ErasedBackend, DynSandbox}
use minion.Backend.{at, put}
use minion.Ffi.{ErrorCode, ok, SandboxOptions, duration}
use minion.Ffi.Memory.{
  Memory, Read, value, undefined, panicked, after, get_string, shared_items, address_space,
}

-- What a pointer owns; objects of a backend stand with the number of its world.
pub data Object : Type 0 where
  backend : ℕ → Object
  sandbox : ℕ → DynSandbox → Object
  child : ℕ → ℕ → Object

pub record Library (W : Type 0) : Type 0 where
  pub hook : Bool
  pub worlds : List W
  pub boxes : List (ℕ × Object)

-- A call returns a code and what it wrote through `out`, or its behaviour is undefined. A panic ends
-- the process, since the hook aborts.
pub data Answer (A : Type 0) : Type 0 where
  returned : ErrorCode → Option A → Answer A
  undefined_behaviour : Answer A

unfoldable pub lookup : ℕ → List (ℕ × Object) → Option Object
lookup p [] = none
lookup p ((q, o) ∷ rest) = let more = lookup p rest in if q == p then some o else more

unfoldable pub without : ℕ → List (ℕ × Object) → List (ℕ × Object)
without p [] = []
without p ((q, o) ∷ rest) = let more = without p rest in if q == p then more else (q, o) ∷ more

abbrev pub Call : Type 0 → Type 0 → Type 0
Call W A = Library W → Sys ⊥ (Answer A × Library W)

abbrev is_backend : Option Object → Bool
is_backend (some (backend k)) = true
is_backend _ = false

abbrev is_sandbox : Option Object → Bool
is_sandbox (some (sandbox k d)) = true
is_sandbox _ = false

abbrev is_child : Option Object → Bool
is_child (some (child k c)) = true
is_child _ = false

module _ {W : Type 0} where
  unfoldable pub lib_init : Call W (Unit {0})
  lib_init l = pure (returned ok none, record l { hook = true })

  -- `Box::into_raw(Box::new(…))`
  abbrev pub boxed : ℕ → Object → Library W → Library W
  boxed fresh o l = record l { boxes = (fresh, o) ∷ l.boxes }

  -- `Box::from_raw` of a pointer that owns no object of the kind is undefined.
  abbrev pub freed : Bool → ℕ → Library W → Answer (Unit {0}) × Library W
  freed true p l = (returned ok none, record l { boxes = without p l.boxes })
  freed false p l = (undefined_behaviour, l)

  unfoldable pub backend_free : ℕ → Call W (Unit {0})
  unfolding lookup without
  backend_free b l = pure (freed (is_backend (lookup b l.boxes)) b l)

  -- The object's reference is dropped; what the drop of the last one does is `Sandbox.drop`.
  unfoldable pub sandbox_free : ℕ → Call W (Unit {0})
  unfolding lookup without
  sandbox_free s l = pure (freed (is_sandbox (lookup s l.boxes)) s l)

  unfoldable pub cp_free : ℕ → Call W (Unit {0})
  unfolding lookup without
  cp_free cp l = pure (freed (is_child (lookup cp l.boxes)) cp l)

-- The options that `minion_sandbox_create` reads from the memory.
unfoldable pub sandbox_options :
    (Text → Bool) → Memory → SandboxOptions → Read Options.SandboxOptions
unfolding shared_items get_string duration
sandbox_options is_utf8 mem o =
    after (shared_items is_utf8 mem address_space o.shared_items) λ items.
      after (get_string mem o.isolation_root) λ root. value (record {
        max_alive_process_count = o.process_limit;
        memory_limit = o.memory_limit;
        cpu_time_limit = duration o.cpu_time_limit;
        real_time_limit = duration o.real_time_limit;
        isolation_root = root;
        shared_items = items;
      })

module _ {F W : Type 0} where
  abbrev created : ℕ → Library W → Result F W → Answer ℕ × Library W
  created fresh l (failure e) = (returned ErrorCode.minion_error none, l)
  created fresh l (success w) = (
    returned ok (some fresh),
    boxed fresh (backend (length l.worlds)) (record l { worlds = l.worlds ++ w ∷ [] }),
  )

  unfoldable pub backend_create : Sys ⊥ (Result F W) → ℕ → Call W ℕ
  backend_create setup fresh l = do r ← setup; pure (created fresh l r)

  -- An operation of a backend, in its world.
  abbrev pub kept : {A : Type 0} → ℕ → Library W → Result F A × W → Result F A × Library W
  kept k l (r, w) = (r, record l { worlds = put l.worlds k w })

  unfoldable pub within :
      {A : Type 0} → ℕ → Op F W A → Library W → Option W → Sys ⊥ (Result F A × Library W)
  within k op l none = abort
  within k op l (some w) = do r ← op w; pure (kept k l r)

  unfoldable pub in_world : {A : Type 0} → ℕ → Op F W A → Library W → Sys ⊥ (Result F A × Library W)
  unfolding within
  in_world k op l = within k op l (at l.worlds k)

  abbrev reported : {A : Type 0} → Result F A × Library W → Answer A × Library W
  reported (success a, l) = (returned ok (some a), l)
  reported (failure e, l) = (returned ErrorCode.minion_error none, l)

  abbrev silent : {A : Type 0} → Result F A × Library W → Answer A × Library W
  silent (success a, l) = (returned ok none, l)
  silent (failure e, l) = (returned ErrorCode.minion_error none, l)

  -- A function on a sandbox that the pointer must be.
  on_sandbox :
      {A B : Type 0}
      → ℕ
      → (DynSandbox → Op F W A)
      → (Result F A × Library W → Answer B × Library W)
      → Call W B
  unfolding in_world
  on_sandbox p op answer l = elim (lookup p l.boxes) [
    | some (sandbox k d) ↦ do r ← in_world k (op d) l; pure (answer r)
    | _ ↦ pure (undefined_behaviour, l)
  ]

  -- `.unwrap()` of the new object: a refusal of the backend panics.
  unfoldable pub unwrapped :
      {A : Type 0} → ℕ → (A → Object) → Result F A × Library W → Sys ⊥ (Answer ℕ × Library W)
  unwrapped fresh object (failure e, l) = abort
  unwrapped fresh object (success a, l) = pure (returned ok (some fresh), boxed fresh (object a) l)

  unfoldable pub made : {A O : Type 0} → ℕ → ℕ → (A → Object) → (O → Op F W A) → Read O → Call W ℕ
  unfolding in_world unwrapped
  made fresh k object op undefined l = pure (undefined_behaviour, l)
  made fresh k object op panicked l = abort
  made fresh k object op (value o) l = do r ← in_world k (op o) l; unwrapped fresh object r

  module _ (b : ErasedBackend F W) where
    unfoldable pub sandbox_check_cpu_tle : ℕ → Call W Bool
    unfolding on_sandbox
    sandbox_check_cpu_tle s = on_sandbox s b.check_cpu_tle reported

    unfoldable pub sandbox_check_real_tle : ℕ → Call W Bool
    unfolding on_sandbox
    sandbox_check_real_tle s = on_sandbox s b.check_real_tle reported

    unfoldable pub sandbox_kill : ℕ → Call W (Unit {0})
    unfolding on_sandbox
    sandbox_kill s = on_sandbox s b.kill silent

    -- `minion_sandbox_create` on what its pointer owns.
    unfoldable pub create_on :
        (Text → Bool) → Memory → SandboxOptions → ℕ → Option Object → Call W ℕ
    unfolding sandbox_options made
    create_on is_utf8 mem options fresh (some (backend k)) l =
        made fresh k (sandbox k) b.new_sandbox (sandbox_options is_utf8 mem options) l
    create_on is_utf8 mem options fresh _ l = pure (undefined_behaviour, l)

    unfoldable pub sandbox_create : (Text → Bool) → Memory → ℕ → SandboxOptions → ℕ → Call W ℕ
    unfolding create_on
    sandbox_create is_utf8 mem p options fresh l =
        create_on is_utf8 mem options fresh (lookup p l.boxes) l
