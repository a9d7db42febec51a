-- ===== src/Os/Ensures.antt =====
-- What holds of the value that a program over the operating system returns, if it returns one.
use minion.Base.{◌≡◌, subst}
use minion.Os.{
  Env, History, Outcome, ok, err, panic, exit, replaced, Sys, pure, abort, continue, ◌>>=◌, ◌>>◌,
}

abbrev Returned : {E A : Type 0} → (A → Type 0) → Outcome E A → Type 0
Returned P (ok a) = P a
Returned P _ = Unit

abbrev pub Ensures : {E A : Type 0} → (A → Type 0) → Sys E A → Type 0
Ensures P m = (env : Env) (h : History) → Returned P (m env h).0

module _ {A : Type 0} (E : Type 0) (P : A → Type 0) where
  pub Ensures-pure : (a : A) → P a → Ensures {E = E} P (pure a)
  unfolding ◌>>=◌
  Ensures-pure a p env h = p

  pub Ensures-abort : Ensures {E = E} P abort
  unfolding ◌>>=◌
  Ensures-abort env h = tt

module _ {E A : Type 0} (P : A → Type 0) where
  pub Ensures-elim :
      (m : Sys E A) → Ensures P m → (env : Env) (h : History) {a : A} → (m env h).0 ≡ ok a → P a
  Ensures-elim m p env h e = subst (Returned P) e (p env h)

module _ {E A B : Type 0} (P : B → Type 0) where
  continued :
      (r : Outcome E A × History) (f : A → Sys E B)
      → ((a : A) → Ensures P (f a))
      → (env : Env) → Returned P (continue r f env).0
  continued (ok a, h') f p env = p a env h'
  continued (err e, h') f p env = tt
  continued (panic, h') f p env = tt
  continued (exit code, h') f p env = tt
  continued (replaced, h') f p env = tt

  pub Ensures-bind :
      (m : Sys E A) (f : A → Sys E B) → ((a : A) → Ensures P (f a)) → Ensures P (m >>= f)
  unfolding ◌>>=◌
  Ensures-bind m f p env h = continued (m env h) f p env

  pub Ensures-then : (m : Sys E A) (k : Sys E B) → Ensures P k → Ensures P (m >> k)
  unfolding ◌>>◌
  Ensures-then m k p = Ensures-bind m (λ _. k) (λ _. p)

module _ {E A B : Type 0} (Q : A → Type 0) (P : B → Type 0) where
  chained :
      (r : Outcome E A × History) (f : A → Sys E B)
      → Returned Q r.0
      → ((a : A) → Q a → Ensures P (f a))
      → (env : Env) → Returned P (continue r f env).0
  chained (ok a, h') f q p env = p a q env h'
  chained (err e, h') f q p env = tt
  chained (panic, h') f q p env = tt
  chained (exit code, h') f q p env = tt
  chained (replaced, h') f q p env = tt

  -- The rest may rely on what holds of the first value.
  pub Ensures-chain :
      (m : Sys E A) (f : A → Sys E B)
      → Ensures Q m
      → ((a : A) → Q a → Ensures P (f a))
      → Ensures P (m >>= f)
  unfolding ◌>>=◌
  Ensures-chain m f q p env h = chained (m env h) f (q env h) p env

module _ {E A : Type 0} (Q P : A → Type 0) where
  weakened : (r : Outcome E A) → ((a : A) → Q a → P a) → Returned Q r → Returned P r
  weakened (ok a) f q = f a q
  weakened (err e) f q = tt
  weakened panic f q = tt
  weakened (exit code) f q = tt
  weakened replaced f q = tt

  pub Ensures-weaken : (m : Sys E A) → ((a : A) → Q a → P a) → Ensures Q m → Ensures P m
  Ensures-weaken m f q env h = weakened (m env h).0 f (q env h)
