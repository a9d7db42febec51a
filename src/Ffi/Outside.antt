-- ===== src/Ffi/Outside.antt =====
-- Whether C code can make a sandbox with minion-ffi/src/lib.rs and the Linux backend of
-- src/linux.rs: no function of the library but `minion_cp_wait` enters a runtime.
use minion.Base.{ℕ, ◌≢◌, ◌≡◌, Bool, false, Option, none, some, Text}
use minion.Os.{Sys, Env, History, ok, Result, success, failure, pure}
use minion.Os.Ensures.{Ensures, Ensures-pure, Ensures-abort, Ensures-chain, Ensures-elim}
use minion.Options
use minion.Options.{postprocess}
use minion.Errors.{Error}
use minion.Jail.{JailOptions, ZygoteStartupInfo, Codecs}
use minion.Limits.Driver.{OpaqueEnterHandle}
use minion.Sandbox.{LinuxSandbox}
use minion.Sandbox.Create.{Programs}
use minion.Sandbox.Outside.{Refused, create-Refused}
use minion.Erased.{DynSandbox, ErasedBackend, erase, erased_new_sandbox, map_into, mapped, wrapped}
use minion.Backend
use minion.Backend.{LinuxBackend, at, linux, keep_sandbox}
use minion.Ffi.{SandboxOptions}
use minion.Ffi.Memory.{Memory, value}
use minion.Ffi.Objects.{
  Object, backend, sandbox, Library, Answer, lookup, in_world, within, made, kept, unwrapped,
  sandbox_options, create_on, sandbox_create,
}

-- No object was made.
abbrev NoObject : {F W A : Type 0} → Result F A × W → Type 0
NoObject (success a, w) = ⊥
NoObject (failure e, w) = Unit

abbrev Never : {A : Type 0} → A → Type 0
Never a = ⊥

module _ {F : Type 0} (into : Error → F) (gen : Programs)
    (start : JailOptions → OpaqueEnterHandle → Sys Error ZygoteStartupInfo) (codecs : Codecs)
    (draws : ℕ → ℕ → ℕ) (type_id : ℕ) where
  abbrev pub outside : ErasedBackend F LinuxBackend
  outside = erase into (linux gen start codecs draws false type_id)

  keep_sandbox-NoObject :
      (w : LinuxBackend) (r : Result Error LinuxSandbox) (e : Error)
      → r ≡ failure e
      → NoObject (keep_sandbox gen start codecs draws false w r)
  unfolding keep_sandbox
  keep_sandbox-NoObject w (success s) e same = cc same
  keep_sandbox-NoObject w (failure x) e same = tt

  new_sandbox-NoObject :
      (o : Options.SandboxOptions) (w : LinuxBackend)
      → Ensures NoObject (Backend.new_sandbox gen start codecs draws false o w)
  unfolding Backend.new_sandbox
  new_sandbox-NoObject o w =
      Ensures-chain Refused NoObject _ _ (create-Refused ⊥ gen start _ _ _ _ _ _)
        λ c (e, same). Ensures-pure ⊥ NoObject _ (keep_sandbox-NoObject _ c.result e same)

  -- What the layers above make of a call that made nothing.
  mapped-NoObject :
      (x : Result Error ℕ × LinuxBackend)
      → NoObject x
      → Ensures {E = ⊥} NoObject (pure (mapped into x.0, x.1))
  mapped-NoObject (success a, w) n = absurd n
  mapped-NoObject (failure e, w) n = Ensures-pure ⊥ NoObject _ tt

  wrapped-NoObject :
      (x : Result F ℕ × LinuxBackend)
      → NoObject x
      → Ensures {E = ⊥} NoObject (pure (wrapped type_id x.0, x.1))
  wrapped-NoObject (success a, w) n = absurd n
  wrapped-NoObject (failure e, w) n = Ensures-pure ⊥ NoObject _ tt

  kept-NoObject :
      (k : ℕ) (l : Library LinuxBackend) (x : Result F DynSandbox × LinuxBackend)
      → NoObject x
      → Ensures {E = ⊥} NoObject (pure (kept k l x))
  kept-NoObject k l (success a, w) n = absurd n
  kept-NoObject k l (failure e, w) n = Ensures-pure ⊥ NoObject _ tt

  erased-NoObject :
      (o : Options.SandboxOptions) (w : LinuxBackend) → Ensures NoObject (outside.new_sandbox o w)
  unfolding erase erased_new_sandbox map_into linux
  erased-NoObject o w =
      Ensures-chain NoObject NoObject _ _
        (Ensures-chain NoObject NoObject _ _ (new_sandbox-NoObject o w) λ x. mapped-NoObject x)
        λ x. wrapped-NoObject x

  within-NoObject :
      (k : ℕ) (o : Options.SandboxOptions) (l : Library LinuxBackend) (w : Option LinuxBackend)
      → Ensures NoObject (within k (outside.new_sandbox o) l w)
  unfolding within
  within-NoObject k o l none = Ensures-abort ⊥ NoObject
  within-NoObject k o l (some w) =
      Ensures-chain NoObject NoObject _ _ (erased-NoObject o w) λ x. kept-NoObject k l x

  unwrapped-Never :
      (fresh : ℕ) (object : DynSandbox → Object) (x : Result F DynSandbox × Library LinuxBackend)
      → NoObject x
      → Ensures Never (unwrapped fresh object x)
  unfolding unwrapped
  unwrapped-Never fresh object (success a, l') n = absurd n
  unwrapped-Never fresh object (failure e, l') n = Ensures-abort ⊥ Never

  made-Never :
      (fresh k : ℕ) (l : Library LinuxBackend) (o : Options.SandboxOptions)
      → Ensures Never (made fresh k (sandbox k) outside.new_sandbox (value o) l)
  unfolding made in_world
  made-Never fresh k l o =
      Ensures-chain NoObject Never _ _ (within-NoObject k o l (at l.worlds k))
        λ x n. unwrapped-Never fresh (sandbox k) x n

  create_on-Never :
      (is_utf8 : Text → Bool) (mem : Memory) (options : SandboxOptions) (fresh k : ℕ)
      (l : Library LinuxBackend) (object : Option Object) (o : Options.SandboxOptions)
      → object ≡ some (backend k)
      → sandbox_options is_utf8 mem options ≡ value o
      → Ensures Never (create_on outside is_utf8 mem options fresh object l)
  unfolding create_on
  create_on-Never is_utf8 mem options fresh k l object o owned reads =
      rw (owned, reads) (made-Never fresh k l o)

  -- `minion_sandbox_create` with a backend of the Linux kind and options that can be read never
  -- returns: C code, which is outside of any runtime, gets no sandbox, nor an error code.
  pub sandbox_create-never_returns :
      (is_utf8 : Text → Bool) (mem : Memory) (p k : ℕ) (options : SandboxOptions) (fresh : ℕ)
      (l : Library LinuxBackend) (o : Options.SandboxOptions) (env : Env) (h : History)
      (answer : Answer ℕ × Library LinuxBackend)
      → lookup p l.boxes ≡ some (backend k)
      → sandbox_options is_utf8 mem options ≡ value o
      → (sandbox_create outside is_utf8 mem p options fresh l env h).0 ≢ ok answer
  unfolding sandbox_create
  sandbox_create-never_returns is_utf8 mem p k options fresh l o env h answer owned reads =
      Ensures-elim Never (create_on outside is_utf8 mem options fresh (lookup p l.boxes) l)
        (create_on-Never is_utf8 mem options fresh k l (lookup p l.boxes) o owned reads) env h
