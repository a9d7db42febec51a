-- ===== src/Zygote/Descriptors.antt =====
-- The descriptors of a job on their way from src/linux/sandbox.rs to
-- src/linux/zygote/main_loop.rs.
use mathlib.Core.List.{reverse-append, reverse-reverse}
use minion.Base.{
  ℕ, ◌+◌, ◌≤◌, ◌<◌, ◌≡◌, ◌≢◌, ap, subst, ◌∙◌, ◌⊎◌, inl, inr, none, some, List, [], ◌∷◌, arith,
  length, map,
}
use minion.Os.{Env, History, ok, panic}
use minion.Os.Laws.{>>=-panic, unwrap-err}
use minion.Errors.{Error}
use minion.Jail.{Codecs}
use minion.Ipc.{send_fds, recv_fds}
use minion.Ipc.Packets.{Files, sent, Delivers}
use minion.Ipc.Descriptors.{recv_fds-send_fds, recv_fds_mismatch}
use minion.Sandbox.Jobs.{ExtendedJobQuery, job_fds}
use minion.Zygote.Loop.{Zygote, SpawnFds, split_fds, pop_three, process_spawn_query}

split_fds_lem :
    (a b c : ℕ) (extra : List ℕ)
    → split_fds (a ∷ b ∷ c ∷ extra)
      ≡ some (record { stdio = record { stdin = a; stdout = b; stderr = c }; extra = extra })
unfolding split_fds
split_fds_lem a b c extra =
    ap pop_three (reverse-append extra (a ∷ b ∷ c ∷ []))
    ∙ ap (λ r. some (record { stdio = record { stdin = a; stdout = b; stderr = c }; extra = r }))
        (reverse-reverse extra)

-- The streams and the extra descriptors that the zygote has stand for the files of the sender's.
pub record SameFiles (files : Files) (a b c : ℕ) (extra : List ℕ) (s : SpawnFds) : Type 0 where
  pub stdin : files.receiver s.stdio.stdin ≡ files.sender a
  pub stdout : files.receiver s.stdio.stdout ≡ files.sender b
  pub stderr : files.receiver s.stdio.stderr ≡ files.sender c
  pub extra_fds : map files.receiver s.extra ≡ map files.sender extra

split_fds-SameFiles :
    (files : Files) (a b c : ℕ) (extra fds' : List ℕ)
    → map files.receiver fds' ≡ map files.sender (a ∷ b ∷ c ∷ extra)
    → (s : SpawnFds) × (split_fds fds' ≡ some s) × SameFiles files a b c extra s
split_fds-SameFiles files a b c extra [] e = cc e
split_fds-SameFiles files a b c extra (x ∷ []) e = cc e
split_fds-SameFiles files a b c extra (x ∷ y ∷ []) e = cc e
split_fds-SameFiles files a b c extra (x ∷ y ∷ z ∷ rest) e = (
  _,
  split_fds_lem x y z rest,
  record { stdin = cc e; stdout = cc e; stderr = cc e; extra_fds = cc e },
)

-- If a job has all three standard streams and its descriptors arrive, the zygote receives one for
-- each of them, in the order sent, and gives the first three to the right streams and the others,
-- in order, to the extra ones.
pub split_fds-job_fds :
    (files : Files) (q : ExtendedJobQuery) (a b c fd fd' : ℕ) (env env' : Env) (h' : History)
    → q.stdin ≡ some a
    → q.stdout ≡ some b
    → q.stderr ≡ some c
    → (send_fds fd (job_fds q) env []).0 ≡ ok tt
    → Delivers files env' fd' h' (sent fd (send_fds fd (job_fds q) env []).1)
    → (fds' : List ℕ) × (s : SpawnFds) × ((recv_fds fd' (3 + length q.extra) env' h').0 ≡ ok fds')
      × (split_fds fds' ≡ some s)
      × SameFiles files a b c q.extra s
split_fds-job_fds files q a b c fd fd' env env' h' ea eb ec s d =
    let fds : job_fds q ≡ a ∷ b ∷ c ∷ q.extra = unfold job_fds in rw (ea, eb, ec) in
    let count : length (job_fds q) ≡ 3 + length q.extra = omega (arith, ap length fds) in
    let (fds', got, same) = recv_fds-send_fds files fd fd' (job_fds q) env env' h' s d in
    let (found, split, placed) =
      split_fds-SameFiles files a b c q.extra fds' (same ∙ ap (map files.sender) fds) in
    (fds', found, subst (λ n. (recv_fds fd' n env' h').0 ≡ ok fds') count got, split, placed)

fewer_fds :
    (q : ExtendedJobQuery)
    → (q.stdin ≡ none) ⊎ (q.stdout ≡ none) ⊎ (q.stderr ≡ none)
    → length (job_fds q) < 3 + length q.extra
unfolding job_fds
fewer_fds q (inl e) = rw e (ground arith)
fewer_fds q (inr (inl e)) = rw e (ground arith)
fewer_fds q (inr (inr e)) = rw e (ground arith)

module _ (codecs : Codecs) where
  -- A job without one of its standard streams, with five extra descriptors at most and with one
  -- descriptor at least in all, makes the zygote panic once its descriptors arrive: it waits for
  -- three streams, and refuses a message with fewer.
  pub process_spawn_query-missing_stream :
      (files : Files) (q : ExtendedJobQuery) (z : Zygote) (fd : ℕ) (env env' : Env) (h' : History)
      → (q.stdin ≡ none) ⊎ (q.stdout ≡ none) ⊎ (q.stderr ≡ none)
      → length q.extra ≡ length q.job_query.extra_fds
      → length q.extra ≤ 5
      → job_fds q ≢ []
      → (send_fds fd (job_fds q) env []).0 ≡ ok tt
      → Delivers files env' z.sock h' (sent fd (send_fds fd (job_fds q) env []).1)
      → (process_spawn_query codecs z q.job_query env' h').0 ≡ panic
  unfolding process_spawn_query
  process_spawn_query-missing_stream files q z fd env env' h' missing same few some_fd s d =
      let short = fewer_fds q missing in
      let refused =
        recv_fds_mismatch files fd z.sock (3 + length q.job_query.extra_fds) (job_fds q) env env' h'
          some_fd (omega arith) (omega arith) (omega arith) (λ e. omega arith) s d in
      ap (λ r. r.0)
        (>>=-panic _ _ env' h'
          (unwrap-err Error (recv_fds z.sock (3 + length q.job_query.extra_fds)) env' h' refused))
