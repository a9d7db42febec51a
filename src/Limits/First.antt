-- ===== src/Limits/First.antt =====
-- Which of the configured drivers `Driver::new` of src/linux/limits.rs takes.
use minion.Base.{ℕ, ◌+◌, ◌≡◌, refl, ap, ◌∙◌, List, [], ◌∷◌, Text}
use minion.Os.{
  Env, History, Outcome, Sys, Result, success, failure, ok, err, panic, exit, replaced, pure, fail,
  attempt, caught, continue, ◌>>=◌,
}
use minion.Settings.{Settings}
use minion.Errors.{Error, RawSettings, Attempts, no_attempts}
use minion.Limits.Configs.{process_kinds}
use minion.Limits.Driver
use minion.Limits.Driver.{Driver, push_attempt, select, smoke_check, new_raw}

-- The driver of the first configuration whose check passes, each check being made after the failed
-- ones before it.
pub data Selects (suffixes : ℕ → Text) (env : Env) (d : Driver)
    : ℕ → List RawSettings → History → Type 0 where
  here :
      {n : ℕ} {config : RawSettings} {rest : List RawSettings} {h h' : History}
      → smoke_check (suffixes n) (new_raw config) env h ≡ (ok d, h')
      → Selects suffixes env d n (config ∷ rest) h
  there :
      {n : ℕ} {config : RawSettings} {rest : List RawSettings} {h h' : History} (e : Error)
      → smoke_check (suffixes n) (new_raw config) env h ≡ (err e, h')
      → Selects suffixes env d (n + 1) rest h'
      → Selects suffixes env d n (config ∷ rest) h

abbrev next :
    (ℕ → Text)
    → ℕ
    → Attempts
    → RawSettings
    → List RawSettings
    → Result Error Driver
    → Sys Error Driver
next suffixes n a config rest (success driver) = pure driver
next suffixes n a config rest (failure e) = select suffixes (n + 1) (push_attempt a config e) rest

module _ (suffixes : ℕ → Text) (env : Env) (d : Driver) where
  after_check :
      (config : RawSettings) (rest : List RawSettings) (n : ℕ) (a : Attempts) (h h' : History)
      (r : Outcome Error Driver)
      → ((m : ℕ) (b : Attempts) (g : History)
          → (select suffixes m b rest env g).0 ≡ ok d
          → Selects suffixes env d m rest g)
      → smoke_check (suffixes n) (new_raw config) env h ≡ (r, h')
      → (continue (caught {F = Error} r, h') (next suffixes n a config rest) env).0 ≡ ok d
      → Selects suffixes env d n (config ∷ rest) h
  unfolding pure
  after_check config rest n a h h' (ok d') later e result =
      let same : d' ≡ d = cc in here (e ∙ ap (λ x. (ok x, h')) same)
  after_check config rest n a h h' (err x) later e result = there x e (later _ _ _ result)
  after_check config rest n a h h' panic later e result = absurd cc
  after_check config rest n a h h' (exit code) later e result = absurd cc
  after_check config rest n a h h' replaced later e result = absurd cc

  select-Selects :
      (configs : List RawSettings) (n : ℕ) (a : Attempts) (h : History)
      → (select suffixes n a configs env h).0 ≡ ok d
      → Selects suffixes env d n configs h
  unfolding select fail ◌>>=◌ attempt
  select-Selects [] n a h e = absurd cc
  select-Selects (config ∷ rest) n a h e =
      after_check config rest n a h (smoke_check (suffixes n) (new_raw config) env h).1
        (smoke_check (suffixes n) (new_raw config) env h).0 (λ m b g. select-Selects rest m b g)
        refl e

-- The driver that `Driver::new` returns is the one of the first configuration, in the order that the
-- settings ask for, whose check passes; each configuration before it was checked and failed.
pub new-Selects :
    (suffixes : ℕ → Text) (settings : Settings) (env : Env) (h : History) (d : Driver)
    → (Driver.new suffixes settings env h).0 ≡ ok d
    → Selects suffixes env d 0 (process_kinds settings [] settings.resource_drivers) h
unfolding Driver.new
new-Selects suffixes settings env h d e =
    select-Selects suffixes env d (process_kinds settings [] settings.resource_drivers) 0
      no_attempts h e
