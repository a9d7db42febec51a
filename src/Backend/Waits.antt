-- ===== src/Backend/Waits.antt =====
-- What a wait for a child of src/linux.rs leaves behind.
use minion.Base.{ℕ, zero, suc, ◌≡◌, refl, Bool, Option, none, some, List, [], ◌∷◌}
use minion.Os.{Env, History, Sys, Result, success, failure, panic, pure, abort, ◌>>=◌}
use minion.Os.Ensures.{Ensures, Ensures-pure, Ensures-abort, Ensures-bind, Ensures-chain}
use minion.Errors.{Error}
use minion.Jail.{JailOptions, ZygoteStartupInfo, Codecs}
use minion.Limits.Driver.{OpaqueEnterHandle}
use minion.Sandbox.Create.{Programs}
use minion.Child
use minion.Child.{LinuxChildProcess}
use minion.Backend
use minion.Backend.{LinuxBackend, at, put, linux, keep_future, waiting, new_future}

module _ {A : Type 0} where
  pub at-put : (xs : List A) (n : ℕ) (x y : A) → at xs n ≡ some x → at (put xs n y) n ≡ some y
  unfolding at put
  at-put [] n x y e = cc e
  at-put (a ∷ xs) zero x y e = refl
  at-put (a ∷ xs) (suc n) x y e = at-put xs n x y e

pub takes : (x : LinuxChildProcess) → Ensures {E = ⊥} (λ r. r.0.fd ≡ none) (Child.wait_for_exit x)
unfolding Child.wait_for_exit
takes x =
    elim x.fd
      as (λ o.
        Ensures {E = ⊥} {A = LinuxChildProcess × ℕ} (λ r. r.0.fd ≡ none)
          (elim o [ none ↦ abort | some fd ↦ pure (record x { fd = none }, fd) ])) [
            | none ↦ Ensures-abort ⊥ (λ r. r.0.fd ≡ none)
            | some fd ↦ Ensures-pure ⊥ (λ r. r.0.fd ≡ none) (record x { fd = none }, fd) refl
          ]

-- The descriptor of a child was taken.
abbrev pub IsTaken : ℕ → LinuxBackend → Type 0
IsTaken c w = (x : LinuxChildProcess × ℕ) × (at w.children c ≡ some x) × (x.0.fd ≡ none)

module _ (gen : Programs) (start : JailOptions → OpaqueEnterHandle → Sys Error ZygoteStartupInfo)
    (codecs : Codecs) (draws : ℕ → ℕ → ℕ) (entered : Bool) where
  pub keep_future-IsTaken :
      (c : ℕ) (w : LinuxBackend) (sandbox pid : ℕ) (r : Result Error ℕ)
      → IsTaken c w
      → IsTaken c (keep_future gen start codecs draws entered w sandbox pid r).1
  unfolding keep_future
  keep_future-IsTaken c w sandbox pid (failure e) t = t
  keep_future-IsTaken c w sandbox pid (success fd) t = t

  waiting-IsTaken :
      (c : ℕ) (w : LinuxBackend) (x : Option (LinuxChildProcess × ℕ))
      → at w.children c ≡ x
      → Ensures (λ r. IsTaken c r.1) (waiting gen start codecs draws entered c w x)
  unfolding waiting
  waiting-IsTaken c w none e = Ensures-abort ⊥ (λ r. IsTaken c r.1)
  waiting-IsTaken c w (some (x, sandbox)) e =
      Ensures-chain (λ r. r.0.fd ≡ none) (λ r. IsTaken c r.1) _ _ (takes x)
        λ r free.
          Ensures-bind (λ r. IsTaken c r.1) _ _
            λ fd.
              Ensures-pure ⊥ (λ r. IsTaken c r.1) _
                (keep_future-IsTaken c _ sandbox x.pid fd
                  ((r.0, sandbox), at-put w.children c (x, sandbox) (r.0, sandbox) e, free))

  -- Such a child cannot be waited for again.
  pub IsTaken-panics :
      (c : ℕ) (w : LinuxBackend) (env : Env) (h : History)
      → IsTaken c w
      → (Backend.wait_for_exit gen start codecs draws entered c w env h).0 ≡ panic
  unfolding Backend.wait_for_exit waiting Child.wait_for_exit ◌>>=◌
  IsTaken-panics c w env h (x, e, free) = rw (e, waiting, free) refl

  pub wait_for_exit-IsTaken :
      (c : ℕ) (w : LinuxBackend)
      → Ensures (λ r. IsTaken c r.1) (Backend.wait_for_exit gen start codecs draws entered c w)
  unfolding Backend.wait_for_exit
  wait_for_exit-IsTaken c w = waiting-IsTaken c w (at w.children c) refl
