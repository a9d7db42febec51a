-- ===== src/Zygote/Confined.antt =====
-- Where a zygote of src/linux/zygote/main_loop.rs serves its requests: in the root directory that
-- `setup` of src/linux/zygote/setup.rs confines it to.
use minion.Base.{
  ℕ, ◌≡◌, ◌≢◌, ◌⊎◌, refl, inl, inr, Bool, Option, none, [], ◌∷◌, bytes, Option-cases, if◌then◌else◌,
}
use minion.Os.{Env, History, ok, Sys, ◌>>◌}
use minion.Os.Calls.{chroot, chdir}
use minion.Os.Endings.{Leaves, Leaves-then, then_cases}
use minion.Errors.{Error}
use minion.Jail.{JailOptions, Codecs}
use minion.Limits.Driver.{OpaqueEnterHandle}
use minion.Zygote.Loop.{Zygote}
use minion.Zygote.Setup.{setup, setup_chroot}
use minion.Zygote.Serve.{run_loop_pidfd, run_loop_legacy, entry}

-- The last things done were a change of the root to that of the sandbox and one of the working
-- directory to the new root, and both succeeded.
abbrev pub IsConfined : Env → JailOptions → History → Type 0
IsConfined env o h =
    (before : History) × (h ≡ chdir (bytes "/") ∷ chroot o.isolation_root ∷ before)
    × (env.status before (chroot o.isolation_root) ≡ none)
    × (env.status (chroot o.isolation_root ∷ before) (chdir (bytes "/")) ≡ none)

setup_chroot-IsConfined :
    (env : Env) (o : JailOptions) → Leaves (IsConfined env o) env (setup_chroot o)
unfolding setup_chroot ◌>>◌
setup_chroot-IsConfined env o h = elim (Option-cases (env.status h (chroot o.isolation_root))) [
  | inl a ↦ elim (Option-cases (env.status (chroot o.isolation_root ∷ h) (chdir (bytes "/")))) [
    | inl b ↦ rw (a, b) (h, refl, a, b)
    | inr (errno, b) ↦ rw (a, b) tt
  ]
  | inr (errno, a) ↦ rw a tt
]

setup-IsConfined :
    (env : Env) (o : JailOptions) (uid_mapping_done : ℕ)
    → Leaves (IsConfined env o) env (setup o uid_mapping_done)
unfolding setup
setup-IsConfined env o uid_mapping_done =
    let P = IsConfined env o in
    Leaves-then P env _ _ (
      Leaves-then P env _ _ (
        Leaves-then P env _ _
          (Leaves-then P env _ _ (Leaves-then P env _ _ (setup_chroot-IsConfined env o)))))

module _ (codecs : Codecs) where
  -- A zygote that has no tasks yet.
  abbrev pub fresh : JailOptions → ℕ → OpaqueEnterHandle → Bool → Zygote
  fresh o sock handle pidfd = record {
    tasks = [];
    sock = sock;
    jail_options = o;
    handle = handle;
    pidfd = pidfd;
  }

  abbrev pub serve : ℕ → JailOptions → ℕ → OpaqueEnterHandle → Bool → Sys Error (Option ℕ)
  serve fuel o sock handle pidfd =
      if pidfd
      then run_loop_pidfd codecs fuel (fresh o sock handle pidfd)
      else run_loop_legacy codecs fuel (fresh o sock handle pidfd)

  -- A zygote serves its requests, without a task at first, only once it is confined to the root of
  -- its sandbox; if it cannot be, then it does nothing more and returns no code.
  pub entry-IsConfined :
      (fuel : ℕ) (o : JailOptions) (sock uid_mapping_done : ℕ) (handle : OpaqueEnterHandle)
      (pidfd : Bool) (env : Env) (h : History)
      → ((h' : History) × IsConfined env o h'
          × (entry codecs fuel o sock uid_mapping_done handle pidfd env h
              ≡ serve fuel o sock handle pidfd env h'))
        ⊎ (((entry codecs fuel o sock uid_mapping_done handle pidfd env h).1
              ≡ (setup o uid_mapping_done env h).1)
            × ((ret : Option ℕ)
                → (entry codecs fuel o sock uid_mapping_done handle pidfd env h).0 ≢ ok ret))
  unfolding entry
  entry-IsConfined fuel o sock uid_mapping_done handle pidfd env h =
      then_cases (IsConfined env o) env (setup o uid_mapping_done) (serve fuel o sock handle pidfd)
        (setup-IsConfined env o uid_mapping_done) h
