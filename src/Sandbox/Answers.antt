-- ===== src/Sandbox/Answers.antt =====
-- An exit code on its way from the zygote of src/linux/zygote/main_loop.rs to the future of
-- src/linux/wait.rs that asks for it.
mod Tests
use minion.Base.{
  ℕ, ◌+◌, ◌⊎◌, ◌≡◌, ◌<◌, ◌∙◌, refl, sym, subst, ap, inl, inr, none, some, [], ◌∷◌, ◌++◌, Text,
  length, Option-cases, u64_limit,
}
use minion.Os.{
  Env, WaitStatus, exited, signaled, still_alive, other, sys_wait, History, Outcome, panic, exit,
  replaced, mapped, caught, Result, success, failure, ok, err, Sys, ignore, attempt, map_err, sys,
  pure, ◌>>=◌, ◌>>◌,
}
use minion.Os.Calls.{Call, sendmsg, waitpid}
use minion.Os.Laws.{>>-ok, >>=-ok}
use minion.Options.{ExitCode, signalled}
use minion.Errors.{Error, IpcError}
use minion.Errors
use minion.Ipc.{Codec, send, recv, to_ne_bytes}
use minion.Ipc.Packets.{Files, sent, Delivers}
use minion.Ipc.Messages.{recv-send_after}
use minion.Jail.{ZygoteInfo, Codecs, get_exit_code}
use minion.Zygote.Loop.{Task, report_task, exit_code_of}
use minion.Sandbox.Jobs.{received_code, get_code, poll}

-- A message that nobody waits for is sent, or not, and the program goes on.
send_ignored :
    {T : Type 0} (F : Type 0) (codec : Codec T) (fd : ℕ) (m : T) (env : Env) (h : History)
    → ignore {F = F} (send codec fd m) env h ≡ (ok tt, (send codec fd m env h).1)
unfolding send ◌>>◌
send_ignored F codec fd m env h = elim (Option-cases (codec.to_vec m)) [
  | inl e ↦ rw (ignore, send, e) refl
  | inr (message, e) ↦
      let header = sendmsg fd (to_ne_bytes 8 (length message) ++ to_ne_bytes 8 codec.type_id) [] in
      elim (Option-cases (env.status h header)) [
        | inl a ↦ elim (Option-cases (env.status (header ∷ h) (sendmsg fd message []))) [
          | inl b ↦ rw (ignore, send, e, a, b) refl
          | inr (errno, b) ↦ rw (ignore, send, e, a, b) refl
        ]
        | inr (errno, a) ↦ rw (ignore, send, e, a) refl
      ]
]

unmapped :
    (r : Outcome IpcError (Unit {0})) → mapped {F = Error} Error.sandbox_ipc r ≡ ok tt → r ≡ ok tt
unmapped (ok a) e = refl
unmapped (err x) e = cc
unmapped panic e = cc
unmapped (exit code) e = cc
unmapped replaced e = cc

returned : {A : Type 0} (a : A) (env : Env) (h : History) → pure {E = Error} a env h ≡ (ok a, h)
unfolding ◌>>=◌
returned a env h = refl

attempted :
    {A : Type 0} (m : Sys IpcError A) (a : A) (env : Env) (h : History)
    → (m env h).0 ≡ ok a
    → attempt {F = Error} m env h ≡ (ok (success a), (m env h).1)
unfolding ◌>>=◌
attempted m a env h e = ap (λ r. (caught r, (m env h).1)) e

-- What a status of a child is reported as.
abbrev pub Ended : WaitStatus → ℕ → Type 0
Ended (exited pid status) code = status ≡ code
Ended (signaled pid signal) code = signal + signalled.code ≡ code
Ended _ code = ⊥

-- The zygote knows that the process of a task has ended with a code: from the task, or, as for
-- every task that it never reaped, since the system says so when it waits for the process.
abbrev pub EndedWith : Env → ℕ → Task → ℕ → Type 0
EndedWith env pid task code =
    (task.exit_code ≡ some code)
    ⊎ ((task.exit_code ≡ none)
        × (env.status [] (waitpid (some pid)) ≡ none)
        × Ended (env.waited [] (waitpid (some pid))) code)

code_of_ended :
    (status : WaitStatus) (code : ℕ) (env : Env) (h : History)
    → Ended status code
    → exit_code_of {E = Error} status env h ≡ (ok code, h)
unfolding exit_code_of ◌>>=◌
code_of_ended (exited pid status) code env h e = ap (λ c. (ok c, h)) e
code_of_ended (signaled pid signal) code env h e = ap (λ c. (ok c, h)) e
code_of_ended still_alive code env h e = absurd e
code_of_ended other code env h e = absurd e

waited_for :
    (pid : ℕ) (env : Env) (h : History)
    → env.status h (waitpid (some pid)) ≡ none
    → map_err {F = Error} Error.syscall (sys_wait (waitpid (some pid))) env h
      ≡ (ok (env.waited h (waitpid (some pid))), waitpid (some pid) ∷ h)
unfolding ◌>>=◌
waited_for pid env h e = rw e refl

module _ (codecs : Codecs) where
  -- The report is a message with the code, and nothing is sent before it.
  report_sends :
      (sock pid code : ℕ) (task : Task) (env : Env)
      → EndedWith env pid task code
      → (h : History) × (sent sock h ≡ [])
        × (report_task codecs sock pid task env []
            ≡ map_err Error.sandbox_ipc (send codecs.exit_code sock code) env h)
  unfolding report_task map_err
  report_sends sock pid code task env (inl known) = ([], refl, rw (report_task, known) refl)
  report_sends sock pid code task env (inr (unknown, waits, ended)) = (
    waitpid (some pid) ∷ [],
    refl,
    rw (report_task, unknown)
        (>>=-ok _ _ env [] (waited_for pid env [] waits)
          ∙ >>=-ok _ _ env _ (code_of_ended _ code env _ ended)),
  )

  -- The exit code that the zygote reports for a task whose process has ended, whether the task has
  -- it or the zygote waits for the process, is what the future for the process yields once its
  -- descriptor is readable, if the answer arrives and the code is serialised and read back as it
  -- is.
  pub poll-report_task :
      (files : Files) (zyg : ZygoteInfo) (sock pid code : ℕ) (task : Task) (message : Text)
      (env env' : Env) (h' : History)
      → EndedWith env pid task code
      → codecs.exit_code.to_vec code ≡ some message
      → codecs.exit_code.from_slice message ≡ some code
      → length message < u64_limit
      → codecs.exit_code.type_id < u64_limit
      → (report_task codecs sock pid task env []).0 ≡ ok tt
      → Delivers files env' zyg.sock
          (send codecs.query zyg.sock (get_exit_code (record { pid = pid })) env' h').1
          (sent sock (report_task codecs sock pid task env []).1)
      → (poll codecs {E = Error} (some (success tt)) (some zyg) pid env' h').0
        ≡ ok (some (success (record { code = code })))
  unfolding poll get_code received_code map_err
  poll-report_task files zyg sock pid code task message env env' h' ended e f l t s d =
      let query = send codecs.query zyg.sock (get_exit_code (record { pid = pid })) in
      let asked =
        send_ignored Error codecs.query zyg.sock (get_exit_code (record { pid = pid })) env' h' in
      let start = (query env' h').1 in
      let (before, nothing, reported) = report_sends sock pid code task env ended in
      let sent_well =
        unmapped (send codecs.exit_code sock code env before).0
          (ap (λ r. r.0) (sym reported) ∙ s) in
      let arrives =
        subst (λ h. Delivers files env' zyg.sock start (sent sock h)) (ap (λ r. r.1) reported) d in
      let got =
        recv-send_after codecs.exit_code files sock zyg.sock code message env env' before start
          nothing e f l t sent_well arrives in
      let last = (recv codecs.exit_code zyg.sock env' start).1 in
      ap (λ r. r.0)
        (>>=-ok _ _ env' h' {a = record { code = code }} {h' = last} (
            >>-ok (ignore query) _ env' h' asked
            ∙ >>=-ok _ _ env' start (attempted (recv codecs.exit_code zyg.sock) code env' start got)
            ∙ returned _ env' last)
          ∙ returned _ env' last)
