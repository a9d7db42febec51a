-- ===== src/Zygote/Panics.antt =====
-- src/linux/zygote/setup.rs: the hook that ends a zygote which panics, and the handler of SIGTERM.
-- What a panic says, and the trace of the calls that led to it, are arguments.
use minion.Base.{◌≡◌, refl, ap, ◌∙◌, Text, bytes, ◌++◌, ◌∷◌}
use minion.Os.{Env, History, Outcome, ok, err, panic, exit, replaced, Sys, leave, ◌>>=◌, ◌>>◌}
use minion.Os.Calls
use minion.Os.Laws.{>>-ok}
use minion.Util.{strace_logger, strace_logger_fd, set_fd, write, write_lem}

-- The hook that `setup_panic_hook` sets; its writes are not checked.
unfoldable pub panic_hook : {E A : Type 0} → Text → Text → Sys E A
unfolding write
panic_hook info backtrace = do
  let logger = strace_logger
  write logger (bytes "PANIC: " ++ info)
  write logger backtrace
  let stderr = set_fd logger 2
  write stderr (bytes "PANIC: " ++ info)
  write stderr backtrace
  write stderr (bytes "Exiting")
  leave 1

-- `exit_sighandler`
unfoldable pub exit_sighandler : {E A : Type 0} → Sys E A
exit_sighandler = leave 1

-- What the hook writes.
abbrev reported : Text → Text → History → History
reported info backtrace h =
    Calls.write 2 (bytes "Exiting")
    ∷ Calls.write 2 backtrace
    ∷ Calls.write 2 (bytes "PANIC: " ++ info)
    ∷ Calls.write strace_logger_fd backtrace
    ∷ Calls.write strace_logger_fd (bytes "PANIC: " ++ info)
    ∷ h

module _ {E A : Type 0} (info backtrace : Text) where
  abbrev caught_by : Outcome E A × History → Env → Outcome E A × History
  caught_by (ok a, h) env = (ok a, h)
  caught_by (err e, h) env = (err e, h)
  caught_by (panic, h) env = panic_hook info backtrace env h
  caught_by (exit code, h) env = (exit code, h)
  caught_by (replaced, h) env = (replaced, h)

  -- A program that runs with the hook.
  unfoldable pub hooked : Sys E A → Sys E A
  hooked m env h = caught_by (m env h) env

  panic_hook_lem :
      (env : Env) (h : History)
      → panic_hook {E = E} {A = A} info backtrace env h ≡ (exit 1, reported info backtrace h)
  unfolding panic_hook
  panic_hook_lem env h =
      >>-ok _ _ env _ (write_lem E strace_logger (bytes "PANIC: " ++ info) env _)
      ∙ >>-ok _ _ env _ (write_lem E strace_logger backtrace env _)
      ∙ >>-ok _ _ env _ (write_lem E (set_fd strace_logger 2) (bytes "PANIC: " ++ info) env _)
      ∙ >>-ok _ _ env _ (write_lem E (set_fd strace_logger 2) backtrace env _)
      ∙ >>-ok _ _ env _ (write_lem E (set_fd strace_logger 2) (bytes "Exiting") env _)
      ∙ unfold ◌>>=◌ in refl

  -- A zygote that panics says so twice and exits with code 1, whether or not it can say so.
  pub hooked-panic :
      (m : Sys E A) (env : Env) (h h' : History)
      → m env h ≡ (panic, h')
      → hooked m env h ≡ (exit 1, reported info backtrace h')
  unfolding hooked
  hooked-panic m env h h' e = ap (λ r. caught_by r env) e ∙ panic_hook_lem env h'
