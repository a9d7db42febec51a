-- ===== src/Zygote/Legacy.antt =====
-- The loop of src/linux/zygote/main_loop.rs for kernels without process descriptors.
use minion.Base.{
  ℕ, ◌≡◌, ◌≢◌, refl, ◌∙◌, false, none, some, List, [], ◌∷◌, arith, if◌then◌else◌, Bool-cases, inl,
  inr, All,
}
use minion.Os.{Env, History, ok, pure, map_err, sys_numbers, ◌>>=◌}
use minion.Os.Laws.{>>=-ok}
use minion.Os.Calls.{select}
use minion.Errors.{Error}
use minion.Jail.{Codecs}
use minion.Zygote.Loop.{Zygote}
use minion.Zygote.Serve.{contains, watched, legacy_round, handle_one_request}

only_sock :
    (ready : List ℕ) (sock sig_fd : ℕ)
    → All (λ fd. fd ≡ sock) ready
    → sig_fd ≢ sock
    → contains ready sig_fd ≡ false
unfolding contains
only_sock [] sock sig_fd a ne = refl
only_sock (x ∷ xs) sock sig_fd (e, a) ne = ground (arith, only_sock xs sock sig_fd a ne)

answered :
    (codecs : Codecs) (z : Zygote) (sig_fd : ℕ) (env : Env) (h : History)
    → z.pidfd ≡ false
    → env.status h (select (z.sock ∷ [])) ≡ none
    → map_err Error.syscall (sys_numbers (select (watched codecs z.pidfd sig_fd z.sock))) env h
      ≡ (ok (env.numbers h (select (z.sock ∷ []))), select (z.sock ∷ []) ∷ h)
unfolding watched ◌>>=◌
answered codecs z sig_fd env h old works = rw (old, works) refl

module _ (codecs : Codecs) where
  -- Without process descriptors, and if `select` reports descriptors only that it was asked to
  -- watch, a round of the loop reaps no child: it serves a request if there is one, with the tasks
  -- as they were, and else does nothing but wait.
  pub legacy_round-never_reaps :
      (fuel sig_fd : ℕ) (z : Zygote) (env : Env) (h : History)
      → z.pidfd ≡ false
      → sig_fd ≢ z.sock
      → env.status h (select (z.sock ∷ [])) ≡ none
      → All (λ fd. fd ≡ z.sock) (env.numbers h (select (z.sock ∷ [])))
      → legacy_round codecs fuel sig_fd z env h
        ≡ (if contains (env.numbers h (select (z.sock ∷ []))) z.sock
              then (handle_one_request codecs z >>= λ r. pure (some r))
              else pure (some (z, none)))
            env
            (select (z.sock ∷ []) ∷ h)
  unfolding legacy_round watched
  legacy_round-never_reaps fuel sig_fd z env h old other works asked =
      let ready = env.numbers h (select (z.sock ∷ [])) in
      let deaf = only_sock ready z.sock sig_fd asked other in
      >>=-ok (map_err Error.syscall (sys_numbers (select (watched codecs z.pidfd sig_fd z.sock)))) _
        env h (answered codecs z sig_fd env h old works)
      ∙ rw deaf (elim (Bool-cases (contains ready z.sock)) [
        | inl c ↦ unfold ◌>>=◌ in rw c refl
        | inr c ↦ unfold ◌>>=◌ in rw c refl
      ])
