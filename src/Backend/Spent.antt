-- ===== src/Backend/Spent.antt =====
-- How often a client of src/linux.rs can wait for a child, over any calls.
use minion.Base.{
  ℕ, zero, suc, ◌≡◌, refl, sym, ap, ◌∙◌, ◌⊎◌, inl, inr, Bool, Option, none, some, List, [], ◌∷◌,
  ◌++◌,
}
use minion.Os.{Env, History, Sys, Result, success, failure, ok, panic, pure, ◌>>=◌}
use minion.Os.Ensures.{
  Ensures, Ensures-pure, Ensures-abort, Ensures-bind, Ensures-chain, Ensures-elim,
}
use minion.Errors.{Error}
use minion.Fds.{LinuxReadPipe, LinuxWritePipe}
use minion.Jail.{JailOptions, ZygoteStartupInfo, Codecs}
use minion.Limits.Driver.{OpaqueEnterHandle}
use minion.Sandbox.{LinuxSandbox}
use minion.Sandbox.Create.{Programs}
use minion.Child.{LinuxChildProcess, take_stdin, take_stdout, take_stderr}
use minion.Backend
use minion.Backend.{
  LinuxBackend, at, put, linux, known, keep_sandbox, keep_child, keep_future, waiting, updated,
  changed, write_fd, read_fd,
}
use minion.Backend.Upkeep.{known-Ensures}
use minion.Backend.Waits.{
  IsTaken, takes, keep_future-IsTaken, IsTaken-panics, wait_for_exit-IsTaken,
}
use minion.Backend.Requests.{
  Request, serve, Reach, here, next, new_sandbox, spawn, id, check_cpu_tle, check_real_tle, kill,
  resource_usage, stdin, stdout, stderr, wait_for_exit, ready, drop_sandbox,
}

module _ {A : Type 0} where
  at-append_left : (xs ys : List A) (c : ℕ) (x : A) → at xs c ≡ some x → at (xs ++ ys) c ≡ some x
  unfolding at
  at-append_left [] ys c x e = cc
  at-append_left (a ∷ xs) ys zero x e = e
  at-append_left (a ∷ xs) ys (suc c) x e = at-append_left xs ys c x e

  at-put_either :
      (xs : List A) (i c : ℕ) (x y : A)
      → at xs c ≡ some x
      → (at (put xs i y) c ≡ some x) ⊎ ((at xs i ≡ some x) × (at (put xs i y) c ≡ some y))
  unfolding at put
  at-put_either [] i c x y e = cc
  at-put_either (a ∷ xs) zero zero x y e = inr (e, refl)
  at-put_either (a ∷ xs) zero (suc c) x y e = inl e
  at-put_either (a ∷ xs) (suc i) zero x y e = inl e
  at-put_either (a ∷ xs) (suc i) (suc c) x y e = at-put_either xs i c x y e

-- A child that was put back without its descriptor, if it had none.
put-IsTaken :
    (c i s : ℕ) (w : LinuxBackend) (o o' : LinuxChildProcess)
    → at w.children i ≡ some (o, s)
    → (o.fd ≡ none → o'.fd ≡ none)
    → IsTaken c w
    → IsTaken c (record w { children = put w.children i (o', s) })
put-IsTaken c i s w o o' e kept (x, h, free) = elim (at-put_either w.children i c x (o', s) h) [
  | inl same ↦ (x, same, free)
  | inr (was, now) ↦
      let before : x ≡ (o, s) = cc in ((o', s), now, kept (sym (ap (λ y. y.0.fd) before) ∙ free))
]

abbrev Left : {A : Type 0} → ℕ → Result Error A × LinuxBackend → Type 0
Left c r = IsTaken c r.1

served :
    {A : Type 0} (c : ℕ) (m : Sys ⊥ (Result Error A × LinuxBackend))
    → Ensures (Left c) m
    → Ensures (IsTaken c) (m >>= λ r. pure r.1)
served c m p = Ensures-chain (Left c) (IsTaken c) m _ p λ r t. Ensures-pure ⊥ (IsTaken c) r.1 t

module _ (gen : Programs) (start : JailOptions → OpaqueEnterHandle → Sys Error ZygoteStartupInfo)
    (codecs : Codecs) (draws : ℕ → ℕ → ℕ) (entered : Bool) (c : ℕ) where
  keep_sandbox-IsTaken :
      (w : LinuxBackend) (r : Result Error LinuxSandbox)
      → IsTaken c w
      → IsTaken c (keep_sandbox gen start codecs draws entered w r).1
  unfolding keep_sandbox
  keep_sandbox-IsTaken w (failure e) t = t
  keep_sandbox-IsTaken w (success s) t = t

  keep_child-IsTaken :
      (w : LinuxBackend) (i : ℕ) (r : Result Error LinuxChildProcess)
      → IsTaken c w
      → IsTaken c (keep_child gen start codecs draws entered w i r).1
  unfolding keep_child
  keep_child-IsTaken w i (failure e) t = t
  keep_child-IsTaken w i (success o) (x, h, free) = (x, at-append_left w.children _ c x h, free)

  waiting_keeps :
      (i : ℕ) (w : LinuxBackend) (x : Option (LinuxChildProcess × ℕ))
      → at w.children i ≡ x
      → IsTaken c w
      → Ensures (Left c) (waiting gen start codecs draws entered i w x)
  unfolding waiting
  waiting_keeps i w none e t = Ensures-abort ⊥ (Left c)
  waiting_keeps i w (some (o, s)) e t =
      Ensures-chain (λ r. r.0.fd ≡ none) (Left c) _ _ (takes o)
        λ r free. Ensures-bind (Left c) _ _ λ fd. Ensures-pure ⊥ (Left c) _ (
          keep_future-IsTaken gen start codecs draws entered c _ s o.pid fd
            (put-IsTaken c i s w o r.0 e (λ _. free) t))

  -- A change of a child that is read first and keeps its descriptor.
  changing :
      {A : Type 0} (i : ℕ) (w : LinuxBackend) (f : LinuxChildProcess → LinuxChildProcess × A)
      → ((o : LinuxChildProcess) → (f o).0.fd ≡ o.fd)
      → IsTaken c w
      → Ensures (Left c) (
          known (at w.children i) >>= λ (o, s).
          pure (changed gen start codecs draws entered w i s (f o)))
  unfolding changed
  changing i w f same t =
      Ensures-chain (λ x. at w.children i ≡ some x) (Left c) _ _
        (known-Ensures (λ x. at w.children i ≡ some x) (at w.children i) (λ x e. e))
        λ (o, s) e.
          Ensures-pure ⊥ (Left c) _ (put-IsTaken c i s w o (f o).0 e (λ free. same o ∙ free) t)

  write_fd_keeps :
      (r : LinuxChildProcess × Option LinuxWritePipe)
      → (write_fd gen start codecs draws entered r).0 ≡ r.0
  write_fd_keeps (o, none) = refl
  write_fd_keeps (o, some p) = refl

  read_fd_keeps :
      (r : LinuxChildProcess × Option LinuxReadPipe)
      → (read_fd gen start codecs draws entered r).0 ≡ r.0
  read_fd_keeps (o, none) = refl
  read_fd_keeps (o, some p) = refl

  stdin-Left :
      (i : ℕ) (w : LinuxBackend)
      → IsTaken c w
      → Ensures (Left c) (Backend.stdin gen start codecs draws entered i w)
  unfolding Backend.stdin take_stdin
  stdin-Left i w t =
      changing i w (λ o. write_fd gen start codecs draws entered (take_stdin o))
        (λ o. ap (λ y. y.fd) (write_fd_keeps (take_stdin o))) t

  stdout-Left :
      (i : ℕ) (w : LinuxBackend)
      → IsTaken c w
      → Ensures (Left c) (Backend.stdout gen start codecs draws entered i w)
  unfolding Backend.stdout take_stdout
  stdout-Left i w t =
      changing i w (λ o. read_fd gen start codecs draws entered (take_stdout o))
        (λ o. ap (λ y. y.fd) (read_fd_keeps (take_stdout o))) t

  stderr-Left :
      (i : ℕ) (w : LinuxBackend)
      → IsTaken c w
      → Ensures (Left c) (Backend.stderr gen start codecs draws entered i w)
  unfolding Backend.stderr take_stderr
  stderr-Left i w t =
      changing i w (λ o. read_fd gen start codecs draws entered (take_stderr o))
        (λ o. ap (λ y. y.fd) (read_fd_keeps (take_stderr o))) t

  serve-IsTaken :
      (q : Request) (w : LinuxBackend)
      → IsTaken c w
      → Ensures (IsTaken c) (serve gen start codecs draws entered q w)
  unfolding serve updated
  serve-IsTaken (new_sandbox o) w t = served c _ (
      unfold Backend.new_sandbox in
      Ensures-bind (Left c) _ _ λ r. Ensures-pure ⊥ (Left c) _ (keep_sandbox-IsTaken _ r.result t))
  serve-IsTaken (check_cpu_tle i) w t =
      served c _
        (unfold Backend.check_cpu_tle in Ensures-bind (Left c) _ _ λ s. Ensures-pure ⊥ (Left c) _ t)
  serve-IsTaken (check_real_tle i) w t =
      served c _ (
        unfold Backend.check_real_tle in Ensures-bind (Left c) _ _ λ s. Ensures-pure ⊥ (Left c) _ t)
  serve-IsTaken (kill i) w t = served c _ (
      unfold Backend.kill in
      Ensures-bind (Left c) _ _ λ s. Ensures-bind (Left c) _ _ λ s'. Ensures-pure ⊥ (Left c) _ t)
  serve-IsTaken (drop_sandbox keep i) w t = served c _ (
      unfold Backend.drop_sandbox in
      Ensures-bind (Left c) _ _ λ s. Ensures-bind (Left c) _ _ λ r. Ensures-pure ⊥ (Left c) _ t)
  serve-IsTaken (wait_for_exit i) w t =
      served c _ (unfold Backend.wait_for_exit in waiting_keeps i w (at w.children i) refl t)
  serve-IsTaken (spawn o i) w t = served c _ (
      unfold Backend.spawn in
      Ensures-bind (Left c) _ _
        λ s. Ensures-bind (Left c) _ _ λ r. Ensures-pure ⊥ (Left c) _ (keep_child-IsTaken w i r t))
  serve-IsTaken (id i) w t =
      served c _ (unfold Backend.id in Ensures-bind (Left c) _ _ λ s. Ensures-pure ⊥ (Left c) _ t)
  serve-IsTaken (resource_usage i) w t = served c _ (
      unfold Backend.resource_usage in
      Ensures-bind (Left c) _ _ λ s. Ensures-bind (Left c) _ _ λ r. Ensures-pure ⊥ (Left c) _ t)
  serve-IsTaken (stdin i) w t = served c _ (stdin-Left i w t)
  serve-IsTaken (stdout i) w t = served c _ (stdout-Left i w t)
  serve-IsTaken (stderr i) w t = served c _ (stderr-Left i w t)
  serve-IsTaken (ready f) w t = served c _ (
      unfold Backend.ready in
      Ensures-bind (Left c) _ _ λ future. Ensures-bind (Left c) _ _ λ s.
        Ensures-bind (Left c) _ _
          λ p. Ensures-bind (Left c) _ _ λ code. Ensures-pure ⊥ (Left c) _ t)

  Reach-IsTaken :
      {w x : LinuxBackend} → IsTaken c w → Reach gen start codecs draws entered w x → IsTaken c x
  Reach-IsTaken t here = t
  Reach-IsTaken t (next {x} {y} r q env h e) =
      Ensures-elim (IsTaken c) (serve gen start codecs draws entered q x)
        (serve-IsTaken q x (Reach-IsTaken t r)) env h e

  -- Once a wait for a child has returned, with a future or with an error, every later wait for the
  -- child panics, whatever calls come between.
  pub wait_for_exit-once :
      (w w' : LinuxBackend) (r : Result Error ℕ) (env env' : Env) (h h' : History)
      {x : LinuxBackend}
      → (Backend.wait_for_exit gen start codecs draws entered c w env h).0 ≡ ok (r, w')
      → Reach gen start codecs draws entered w' x
      → (Backend.wait_for_exit gen start codecs draws entered c x env' h').0 ≡ panic
  wait_for_exit-once w w' r env env' h h' {x} returned reach =
      IsTaken-panics gen start codecs draws entered c x env' h' (
        Reach-IsTaken
          (Ensures-elim (λ r'. IsTaken c r'.1)
            (Backend.wait_for_exit gen start codecs draws entered c w)
            (wait_for_exit-IsTaken gen start codecs draws entered c w) env h returned)
          reach)
