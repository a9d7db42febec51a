-- ===== src/Os/Samples.antt =====
-- Environments for tests: every call succeeds.
use minion.Base.{ℕ, none, []}
use minion.Os.{Env, History, Packet, exited}

-- Numbers are `n`, and packets are chosen by the history.
abbrev pub answering : ℕ → (History → Packet) → Env
answering n packets = record {
  status = λ h c. none;
  number = λ h c. n;
  pair = λ h c. (n, n);
  text = λ h c. [];
  packet = λ h c. packets h;
  waited = λ h c. exited n 0;
  numbers = λ h c. [];
}

abbrev pub silent : Packet
silent = record { payload = []; rights = none }

abbrev pub quiet : Env
quiet = answering 3 (λ h. silent)
