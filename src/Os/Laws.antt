-- ===== src/Os/Laws.antt =====
-- How a program over the operating system goes on after its first part.
use minion.Base.{ℕ, ◌≡◌, ap}
use minion.Os.{
  Env, History, Outcome, ok, err, panic, exit, replaced, Result, success, failure, Sys, continue,
  caught, unwrapped, unwrap, attempt, ◌>>=◌, ◌>>◌,
}

module _ {E A B : Type 0} (m : Sys E A) (f : A → Sys E B) (env : Env) (h : History) where
  pub >>=-ok : {a : A} {h' : History} → m env h ≡ (ok a, h') → (m >>= f) env h ≡ f a env h'
  unfolding ◌>>=◌
  >>=-ok e = ap (λ r. continue r f env) e

  pub >>=-err : {e : E} {h' : History} → m env h ≡ (err e, h') → (m >>= f) env h ≡ (err e, h')
  unfolding ◌>>=◌
  >>=-err e = ap (λ r. continue r f env) e

  pub >>=-panic : {h' : History} → m env h ≡ (panic, h') → (m >>= f) env h ≡ (panic, h')
  unfolding ◌>>=◌
  >>=-panic e = ap (λ r. continue r f env) e

module _ {E A B : Type 0} (m : Sys E A) (k : Sys E B) (env : Env) (h : History) where
  pub >>-ok : {a : A} {h' : History} → m env h ≡ (ok a, h') → (m >> k) env h ≡ k env h'
  unfolding ◌>>◌
  >>-ok e = >>=-ok m (λ _. k) env h e

  pub >>-err : {e : E} {h' : History} → m env h ≡ (err e, h') → (m >> k) env h ≡ (err e, h')
  unfolding ◌>>◌
  >>-err e = >>=-err m (λ _. k) env h e

module _ {E A : Type 0} (F : Type 0) (m : Sys E A) (env : Env) (h : History) where
  pub unwrap-err :
      {e : E} {h' : History} → m env h ≡ (err e, h') → unwrap {F = F} m env h ≡ (panic, h')
  unfolding ◌>>=◌
  unwrap-err e = ap (λ r. (unwrapped r.0, r.1)) e

module _ {E F A B : Type 0} (P : Outcome F B → Type 0) (f : Result E A → Sys F B) (env : Env)
    (fine : (a : A) (h : History) → P (f (success a) env h).0)
    (failed : (e : E) (h : History) → P (f (failure e) env h).0) (panics : P panic)
    (exits : (code : ℕ) → P (exit code)) (leaves : P replaced) where
  caught_cases : (r : Outcome E A × History) → P (continue (caught r.0, r.1) f env).0
  caught_cases (ok a, h) = fine a h
  caught_cases (err e, h) = failed e h
  caught_cases (panic, h) = panics
  caught_cases (exit code, h) = exits code
  caught_cases (replaced, h) = leaves

  -- What holds of the rest for every result of an attempt holds of both together.
  pub attempt_cases : (m : Sys E A) (h : History) → P ((attempt m >>= f) env h).0
  unfolding ◌>>=◌
  attempt_cases m h = caught_cases (m env h)
