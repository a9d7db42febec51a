-- ===== src/Os/Endings.antt =====
-- What holds of the history that a program over the operating system leaves, if it returns.
use minion.Base.{◌≡◌, ◌≢◌, ◌⊎◌, inl, inr, refl}
use minion.Os.{Env, History, Outcome, ok, err, panic, exit, replaced, Sys, continue, ◌>>=◌, ◌>>◌}

module _ (P : History → Type 0) where
  abbrev Left : {E A : Type 0} → Outcome E A × History → Type 0
  Left (ok a, h) = P h
  Left (err e, h) = Unit
  Left (panic, h) = Unit
  Left (exit code, h) = Unit
  Left (replaced, h) = Unit

  -- Wherever the program starts.
  abbrev pub Leaves : {E A : Type 0} → Env → Sys E A → Type 0
  Leaves env m = (h : History) → Left (m env h)

  module _ {E A B : Type 0} (env : Env) where
    Leaves-continue :
        (r : Outcome E A × History) (f : A → Sys E B)
        → ((a : A) → Leaves env (f a))
        → Left (continue r f env)
    Leaves-continue (ok a, h) f p = p a h
    Leaves-continue (err e, h) f p = tt
    Leaves-continue (panic, h) f p = tt
    Leaves-continue (exit code, h) f p = tt
    Leaves-continue (replaced, h) f p = tt

    pub Leaves-bind :
        (m : Sys E A) (f : A → Sys E B) → ((a : A) → Leaves env (f a)) → Leaves env (m >>= f)
    unfolding ◌>>=◌
    Leaves-bind m f p h = Leaves-continue (m env h) f p

    pub Leaves-then : (m : Sys E A) (k : Sys E B) → Leaves env k → Leaves env (m >> k)
    unfolding ◌>>◌
    Leaves-then m k p h = Leaves-bind m (λ _. k) (λ _. p) h

    went_on :
        (r : Outcome E A × History) (k : Sys E B)
        → Left r
        → ((h : History) × P h × (continue r (λ _. k) env ≡ k env h))
          ⊎ (((continue r (λ _. k) env).1 ≡ r.1) × ((b : B) → (continue r (λ _. k) env).0 ≢ ok b))
    went_on (ok a, h) k p = inl (h, p, refl)
    went_on (err e, h) k p = inr (refl, λ b e. cc)
    went_on (panic, h) k p = inr (refl, λ b e. cc)
    went_on (exit code, h) k p = inr (refl, λ b e. cc)
    went_on (replaced, h) k p = inr (refl, λ b e. cc)

    -- The rest starts from a history of which this holds, or it does not start and nothing returns.
    pub then_cases :
        (m : Sys E A) (k : Sys E B)
        → Leaves env m
        → (h : History)
        → ((h' : History) × P h' × ((m >> k) env h ≡ k env h'))
          ⊎ ((((m >> k) env h).1 ≡ (m env h).1) × ((b : B) → ((m >> k) env h).0 ≢ ok b))
    unfolding ◌>>◌ ◌>>=◌
    then_cases m k p h = went_on (m env h) k (p h)
