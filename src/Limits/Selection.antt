-- ===== src/Limits/Selection.antt =====
-- Which driver `Driver::new` of src/linux/limits.rs arrives at, and what it reports when none works.
use mathlib.Core.List.{append-nil, append_assoc}
use minion.Base.{
  ℕ, ◌+◌, ◌≡◌, refl, sym, ap, subst, ◌∙◌, true, false, List, [], ◌∷◌, ◌++◌, All, Text,
}
use minion.Os.{Env, History, Outcome, err, ◌>>=◌}
use minion.Os.Laws.{attempt_cases}
use minion.Settings.{Settings, ResourceDriverKind, cgroup_v1, cgroup_v2, cgroup_auto, prlimit, auto}
use minion.Errors.{Error, RawSettings, Attempts, no_attempts, v1, v2}
use minion.Errors
use minion.Limits.Configs.{process_driver_kind, process_kinds}
use minion.Limits.Driver
use minion.Limits.Driver.{Driver, push_attempt, select, smoke_check, new_raw}

-- The configurations of a list of failed attempts.
abbrev pub tried : Attempts → List RawSettings
tried no_attempts = []
tried (Errors.attempt config e rest) = config ∷ tried rest

tried-push_attempt :
    (a : Attempts) (c : RawSettings) (e : Error) → tried (push_attempt a c e) ≡ tried a ++ c ∷ []
unfolding push_attempt
tried-push_attempt no_attempts c e = refl
tried-push_attempt (Errors.attempt d f rest) c e = ap (λ r. d ∷ r) (tried-push_attempt rest c e)

-- What an error of the search says.
abbrev pub Reports : {A : Type 0} → List RawSettings → Outcome Error A → Type 0
Reports configs (err e) = (a : Attempts) × (e ≡ Error.select_driver_impl a) × (tried a ≡ configs)
Reports configs _ = Unit

select-Reports :
    (suffixes : ℕ → Text) (n : ℕ) (a : Attempts) (configs : List RawSettings) (env : Env)
    (h : History)
    → Reports (tried a ++ configs) (select suffixes n a configs env h).0
unfolding select ◌>>=◌
select-Reports suffixes n a [] env h = (a, refl, sym (append-nil (tried a)))
select-Reports suffixes n a (config ∷ rest) env h =
    attempt_cases (Reports (tried a ++ config ∷ rest)) _ env (λ driver h'. tt)
      (λ e h'.
        subst (λ cs. Reports cs (select suffixes (n + 1) (push_attempt a config e) rest env h').0)
          (ap (λ t. t ++ rest) (tried-push_attempt a config e)
            ∙ append_assoc (tried a) (config ∷ []) rest)
          (select-Reports suffixes (n + 1) (push_attempt a config e) rest env h'))
      tt (λ code. tt) tt (smoke_check (suffixes n) (new_raw config)) h

Reports-elim :
    (configs : List RawSettings) (r : Outcome Error Driver) (e : Error)
    → Reports configs r
    → r ≡ err e
    → (a : Attempts) × (e ≡ Error.select_driver_impl a) × (tried a ≡ configs)
Reports-elim configs r e p same = subst (Reports configs) same p

-- If `Driver::new` fails, its error is that no driver works, and lists every configuration that the
-- settings ask for, in order.
pub new-Reports :
    (suffixes : ℕ → Text) (settings : Settings) (env : Env) (h : History) (e : Error)
    → (Driver.new suffixes settings env h).0 ≡ err e
    → (a : Attempts) × (e ≡ Error.select_driver_impl a)
      × (tried a ≡ process_kinds settings [] settings.resource_drivers)
unfolding Driver.new
new-Reports suffixes settings env h e failed =
    let configs = process_kinds settings [] settings.resource_drivers in
    Reports-elim configs (Driver.new suffixes settings env h).0 e
      (select-Reports suffixes 0 no_attempts configs env h) failed

-- Whether a kind may stand for the driver that enforces no group limits.
abbrev pub IsSafeKind : ResourceDriverKind → Type 0
IsSafeKind prlimit = ⊥
IsSafeKind (auto allow_dangerous) = allow_dangerous ≡ false
IsSafeKind _ = Unit

abbrev pub IsCgroup : RawSettings → Type 0
IsCgroup (RawSettings.cgroup prefix mount version) = Unit
IsCgroup (RawSettings.prlimit allow) = ⊥

All-append :
    (xs ys : List RawSettings) → All IsCgroup xs → All IsCgroup ys → All IsCgroup (xs ++ ys)
All-append [] ys a b = b
All-append (x ∷ xs) ys (p, a) b = (p, All-append xs ys a b)

kind_safe :
    (s : Settings) (out : List RawSettings) (kind : ResourceDriverKind)
    → IsSafeKind kind
    → All IsCgroup out
    → All IsCgroup (process_driver_kind s out kind)
unfolding process_driver_kind
kind_safe s out cgroup_v1 k a = All-append out _ a (tt, tt)
kind_safe s out cgroup_v2 k a = All-append out _ a (tt, tt)
kind_safe s out cgroup_auto k a = All-append _ _ (All-append out _ a (tt, tt)) (tt, tt)
kind_safe s out prlimit k a = absurd k
kind_safe s out (auto true) k a = cc k
kind_safe s out (auto false) k a = All-append _ _ (All-append out _ a (tt, tt)) (tt, tt)

-- Unless the settings name the weak driver or an automatic choice that allows it, every
-- configuration to be tried is one of a cgroup.
pub process_kinds-IsCgroup :
    (s : Settings) (out : List RawSettings) (kinds : List ResourceDriverKind)
    → All IsCgroup out
    → All IsSafeKind kinds
    → All IsCgroup (process_kinds s out kinds)
unfolding process_kinds
process_kinds-IsCgroup s out [] a k = a
process_kinds-IsCgroup s out (kind ∷ rest) a (k, ks) =
    process_kinds-IsCgroup s (process_driver_kind s out kind) rest (kind_safe s out kind k a) ks
