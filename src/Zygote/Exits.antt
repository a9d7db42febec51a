-- ===== src/Zygote/Exits.antt =====
-- What src/linux/zygote/main_loop.rs notes about a child that ended.
use minion.Base.{
  ℕ, ◌≡◌, refl, sym, subst, ap, ◌∙◌, ◌⊎◌, inl, inr, false, Option, none, some, List, [], ◌∷◌, map,
  All, ◌==◌, if◌then◌else◌, Bool-cases, bytes,
}
use minion.Os.{Env, History, ok, pure, ◌>>=◌, ◌>>◌}
use minion.Os.Laws.{>>=-ok}
use minion.Os.Calls.{write}
use minion.Zygote.Loop.{Task, notified, first_exit, note_exit, process_exited_child}

-- A task of another process, or one whose exit code is not known yet.
abbrev pub IsUnreported : ℕ → Task → Type 0
IsUnreported pid t = ((t.pid == pid) ≡ false) ⊎ (t.exit_code ≡ none)

abbrev pub marked : ℕ → ℕ → Task → Task
marked pid code t = if t.pid == pid then record t { exit_code = some code } else t

module _ (E : Type 0) (pid code : ℕ) (env : Env)
    (writes : (h : History) (fd : ℕ) → env.status h (write fd (bytes "J")) ≡ none) where
  notified_lem :
      (t : Task) (notify : Option ℕ) (h : History)
      → (h' : History) × (notified {E = E} code t notify env h
          ≡ (ok (record t { exit_code = some code }), h'))
  unfolding notified ◌>>◌
  notified_lem t none h = (h, unfold ◌>>=◌ in refl)
  notified_lem t (some fd) h = (write fd (bytes "J") ∷ h, rw (writes h fd, ◌>>=◌))

  noted :
      (t : Task) (h : History)
      → t.exit_code ≡ none
      → (h' : History) × (note_exit {E = E} code t env h
          ≡ (ok (record t { exit_code = some code }), h'))
  unfolding note_exit first_exit
  noted t h fresh =
      subst
        (λ o.
          (h' : History) × (first_exit {E = E} code t o env h
            ≡ (ok (record t { exit_code = some code }), h')))
        (sym fresh) (notified_lem t t.notify h)

  one_task :
      (t : Task) (h : History)
      → IsUnreported pid t
      → (h' : History) × ((if t.pid == pid then note_exit {E = E} code t else pure t) env h
          ≡ (ok (marked pid code t), h'))
  one_task t h (inl other) = (h, unfold ◌>>=◌ in rw other)
  one_task t h (inr fresh) = elim (Bool-cases (t.pid == pid)) [
    | inl c ↦ rw c (noted t h fresh)
    | inr c ↦ (h, unfold ◌>>=◌ in rw c)
  ]

  rest_marked :
      (t : Task) (rest : List Task) (h : History)
      → (process_exited_child {E = E} pid code rest env h).0 ≡ ok (map (marked pid code) rest)
      → ((process_exited_child {E = E} pid code rest >>= λ rest'. pure (marked pid code t ∷ rest'))
          env h).0
        ≡ ok (map (marked pid code) (t ∷ rest))
  unfolding ◌>>=◌
  rest_marked t rest h e = rw e

  -- If writing to a pipe succeeds and no task of the process has an exit code yet, then the tasks of
  -- the process get the exit code, and no others change.
  pub process_exited_child-marked :
      (tasks : List Task) (h : History)
      → All (IsUnreported pid) tasks
      → (process_exited_child {E = E} pid code tasks env h).0 ≡ ok (map (marked pid code) tasks)
  unfolding process_exited_child
  process_exited_child-marked [] h u = unfold ◌>>=◌ in refl
  process_exited_child-marked (t ∷ rest) h (u, us) =
      let (h', first) = one_task t h u in
      ap (λ r. r.0) (>>=-ok _ _ env h first)
      ∙ rest_marked t rest h' (process_exited_child-marked rest h' us)
