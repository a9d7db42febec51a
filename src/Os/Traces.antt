-- ===== src/Os/Traces.antt =====
-- How the calls of a program over the operating system are followed through its parts, up to the
-- call that replaces the process by another program.
use minion.Base.{ℕ, ◌≡◌, refl, Bool, true, false, none, inl, inr, [], ◌∷◌, Option-cases}
use minion.Os.{
  Env, History, Outcome, ok, err, panic, exit, replaced, Result, success, failure, Sys, pure,
  attempt, unwrap, ignore, sys, sys_value, sys_number, sys_numbers, continue, caught, unwrapped,
  ◌>>=◌, ◌>>◌,
}
use minion.Os.Calls.{Call}

-- Every call of the history that `required` names succeeded.
abbrev pub Required : (Call → Bool) → Env → History → Type 0
Required required env [] = Unit
Required required env (c ∷ h) =
    (required c ≡ true → env.status h c ≡ none) × Required required env h

module _ (required : Call → Bool) (env : Env) where
  -- If a value is returned, then it is `a` and the history is `h'`.
  abbrev Returned : {E A : Type 0} → History → A → History → Outcome E A × History → Type 0
  Returned h a h' (ok b, g) =
      (b ≡ a) × (g ≡ h') × (Required required env h → Required required env h')
  Returned h a h' (replaced, g) = ⊥
  Returned h a h' (r, g) = Unit

  -- A result that is neither a value nor a replaced process.
  abbrev Ended : {E A : Type 0} → Outcome E A → Type 0
  Ended (ok a) = ⊥
  Ended replaced = ⊥
  Ended r = Unit

  abbrev Replaced : {E B : Type 0} → History → History → Outcome E B × History → Type 0
  Replaced h h' r =
      r.0 ≡ replaced → (r.1 ≡ h') × (Required required env h → Required required env h')

  -- The program does not replace the process; if it returns, it returns `a` and leaves `h'`.
  pub record Yields {E A : Type 0} (m : Sys E A) (h : History) (a : A) (h' : History) : Type 0 where
    pub run : Returned h a h' (m env h)

  -- If the process is replaced, the history is `h'`.
  pub record Replaces {E A : Type 0} (k : Sys E A) (h h' : History) : Type 0 where
    pub run : Replaced h h' (k env h)

  -- The program neither returns nor replaces the process.
  pub record Ends {E A : Type 0} (m : Sys E A) (h : History) : Type 0 where
    pub run : Ended (m env h).0

  module _ {E A B : Type 0} (f : A → Sys E B) (h h' h'' : History) (a : A) where
    after_rest :
        (b : B)
        → (Required required env h → Required required env h')
        → (r : Outcome E B × History) → Returned h' b h'' r
        → Returned h b h'' r
    after_rest b kept (ok x, g') (p, q, k) = (p, q, λ z. k (kept z))
    after_rest b kept (err e, g') p = p
    after_rest b kept (panic, g') p = p
    after_rest b kept (exit code, g') p = p
    after_rest b kept (replaced, g') p = p

    yields_rest :
        (b : B) (r : Outcome E A × History)
        → Returned h a h' r
        → Returned h' b h'' (f a env h')
        → Returned h b h'' (continue r f env)
    yields_rest b (ok c, g) (same, grown, kept) rest =
        rw (same, grown) (after_rest b kept (f a env h') rest)
    yields_rest b (err e, g) p rest = tt
    yields_rest b (panic, g) p rest = tt
    yields_rest b (exit code, g) p rest = tt
    yields_rest b (replaced, g) p rest = p

    replaces_rest :
        (r : Outcome E A × History)
        → Returned h a h' r
        → Replaced h' h'' (f a env h')
        → Replaced h h'' (continue r f env)
    replaces_rest (ok c, g) (same, grown, kept) rest =
        rw (same, grown) λ e. let (p, k) = rest e in (p, λ z. k (kept z))
    replaces_rest (err e, g) p rest = λ q. absurd cc
    replaces_rest (panic, g) p rest = λ q. absurd cc
    replaces_rest (exit code, g) p rest = λ q. absurd cc
    replaces_rest (replaced, g) p rest = absurd p

  module _ {E A B : Type 0} {m : Sys E A} {h h' h'' : History} {a : A} where
    pub Yields-bind :
        (f : A → Sys E B) {b : B}
        → Yields m h a h'
        → Yields (f a) h' b h''
        → Yields (m >>= f) h b h''
    unfolding ◌>>=◌
    Yields-bind f {b} p rest = record { run = yields_rest f h h' h'' a b (m env h) p.run rest.run }

    pub Replaces-bind :
        (f : A → Sys E B) → Yields m h a h' → Replaces (f a) h' h'' → Replaces (m >>= f) h h''
    unfolding ◌>>=◌
    Replaces-bind f p rest = record { run = replaces_rest f h h' h'' a (m env h) p.run rest.run }

    pub Yields-then :
        {k : Sys E B} {b : B} → Yields m h a h' → Yields k h' b h'' → Yields (m >> k) h b h''
    unfolding ◌>>◌
    Yields-then {k} p rest = Yields-bind (λ _. k) p rest

    pub Replaces-then :
        {k : Sys E B} → Yields m h a h' → Replaces k h' h'' → Replaces (m >> k) h h''
    unfolding ◌>>◌
    Replaces-then {k} p rest = Replaces-bind (λ _. k) p rest

  module _ {E A : Type 0} {m : Sys E A} {h h' : History} where
    pub Ends-err : {e : E} → m env h ≡ (err e, h') → Ends m h
    Ends-err p = record { run = rw p tt }

    pub Ends-exit : {code : ℕ} → m env h ≡ (exit code, h') → Ends m h
    Ends-exit p = record { run = rw p tt }

    pub Ends-panic : m env h ≡ (panic, h') → Ends m h
    Ends-panic p = record { run = rw p tt }

    pub Yields-of : {a : A} → h' ≡ h → m env h ≡ (ok a, h') → Yields m h a h
    Yields-of same p = record { run = rw p (refl, same, λ k. k) }

  pub Yields-pure : {E A : Type 0} (a : A) (h : History) → Yields (pure {E = E} a) h a h
  unfolding ◌>>=◌
  Yields-pure a h = record { run = (refl, refl, λ k. k) }

  module _ (c : Call) (h : History) where
    pub Yields-sys : Yields (sys c) h tt (c ∷ h)
    unfolding ◌>>=◌
    Yields-sys = elim (Option-cases (env.status h c)) [
      | inl e ↦ record { run = rw e (refl, refl, λ k. ((λ _. e), k)) }
      | inr (errno, e) ↦ record { run = rw e tt }
    ]

    pub Yields-sys_numbers : Yields (sys_numbers c) h (env.numbers h c) (c ∷ h)
    unfolding ◌>>=◌
    Yields-sys_numbers = elim (Option-cases (env.status h c)) [
      | inl e ↦ record { run = rw e (refl, refl, λ k. ((λ _. e), k)) }
      | inr (errno, e) ↦ record { run = rw e tt }
    ]

    module _ {F : Type 0} (unread : required c ≡ false) where
      pub Yields-ignore : Yields (ignore {F = F} (sys c)) h tt (c ∷ h)
      unfolding ◌>>=◌
      Yields-ignore = elim (Option-cases (env.status h c)) [
        | inl e ↦ record { run = rw e (refl, refl, λ k. ((λ _. e), k)) }
        | inr (errno, e) ↦ record { run = rw e (refl, refl, λ k. ((λ q. cc), k)) }
      ]

      pub Yields-ignore_number : Yields (ignore {F = F} (sys_number c)) h tt (c ∷ h)
      unfolding ◌>>=◌
      Yields-ignore_number = elim (Option-cases (env.status h c)) [
        | inl e ↦ record { run = rw e (refl, refl, λ k. ((λ _. e), k)) }
        | inr (errno, e) ↦ record { run = rw e (refl, refl, λ k. ((λ q. cc), k)) }
      ]

      pub Yields-sys_value : Yields (sys_value {E = F} c) h (env.number h c) (c ∷ h)
      unfolding ◌>>=◌
      Yields-sys_value = record { run = (refl, refl, λ k. ((λ q. cc), k)) }

  module _ {E A : Type 0} (F : Type 0) (h h' : History) (a : A) where
    unwrap_rest :
        (r : Outcome E A × History)
        → Returned h a h' r
        → Returned h a h' (unwrapped {F = F} r.0, r.1)
    unwrap_rest (ok c, g) p = p
    unwrap_rest (err e, g) p = tt
    unwrap_rest (panic, g) p = tt
    unwrap_rest (exit code, g) p = tt
    unwrap_rest (replaced, g) p = p

    pub Yields-unwrap : {m : Sys E A} → Yields m h a h' → Yields (unwrap {F = F} m) h a h'
    unfolding ◌>>=◌
    Yields-unwrap {m} p = record { run = unwrap_rest (m env h) p.run }

  module _ {E F A B : Type 0} (f : Result E A → Sys F B) (h h' h'' : History) (a : A) (b : B)
      (fails : (e : E) (g : History) → Ends (f (failure e)) g) where
    ended : (r : Outcome F B × History) → Ended r.0 → Returned h b h'' r
    ended (ok a, g) p = absurd p
    ended (err e, g) p = tt
    ended (panic, g) p = tt
    ended (exit code, g) p = tt
    ended (replaced, g) p = p

    attempt_rest :
        (r : Outcome E A × History)
        → Returned h a h' r
        → Returned h' b h'' (f (success a) env h')
        → Returned h b h'' (continue (caught r.0, r.1) f env)
    attempt_rest (ok c, g) (same, grown, kept) fine =
        rw (same, grown)
          (after_rest (λ x. f (success x)) h h' h'' a b kept (f (success a) env h') fine)
    attempt_rest (err e, g) p fine = ended (f (failure e) env g) (fails e g).run
    attempt_rest (panic, g) p fine = tt
    attempt_rest (exit code, g) p fine = tt
    attempt_rest (replaced, g) p fine = p

    -- A failure ends the run, after a success it goes on.
    pub Yields-attempt :
        {m : Sys E A}
        → Yields m h a h'
        → Yields (f (success a)) h' b h''
        → Yields (attempt m >>= f) h b h''
    unfolding ◌>>=◌
    Yields-attempt {m} p fine = record { run = attempt_rest (m env h) p.run fine.run }
