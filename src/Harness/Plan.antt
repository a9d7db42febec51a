-- ===== src/Harness/Plan.antt =====
-- What the master process of minion-tests/src/master.rs runs, and how it ends.
use minion.Base.{
  ℕ, ◌≡◌, refl, sym, ap, ◌∙◌, ◌==◌, ◌&&◌, Bool, Bool-cases, true, false, Option, none, List, [],
  ◌∷◌, ◌++◌, Text, inl, inr, if◌then◌else◌,
}
use minion.Os.{Env, History, ok, exit, pure, leave, unwrap, sys_number, sys_text}
use minion.Os.Calls.{Call, current_exe, run_command}
use minion.Os.Laws.{>>=-ok, >>-ok}
use minion.Harness
use minion.Harness.{
  TestCase, ExecuteOptions, success, failure, and, command_line, worker_environment, outcome_of,
  execute_single_test, execute_from, execute_tests, get_filter, filtered, run_profiles, finish,
  check_static, main,
}

-- The system finds the program `exe`, can start each command, and a command ends with a status that
-- does not depend on the commands before it.
pub record IsRunner (env : Env) (exe : Text) (code : Call → ℕ) : Type 0 where
  pub status : (h : History) (c : Call) → env.status h c ≡ none
  pub found : (h : History) → env.text h current_exe ≡ exe
  pub number : (h : History) (c : Call) → env.number h c ≡ code c

abbrev command : Text → ExecuteOptions → TestCase → Call
command exe opts c =
    run_command (command_line exe c.name opts).0 (command_line exe c.name opts).1
      (worker_environment c.name opts)

abbrev commands : Text → ExecuteOptions → List TestCase → List Call
commands exe opts [] = []
commands exe opts (c ∷ cs) = command exe opts c ∷ commands exe opts cs

-- One worker for each profile and each test that is selected for it, in order.
abbrev pub planned : Text → (TestCase → Bool) → Bool → List TestCase → List Text → List Call
planned exe filter trace cases [] = []
planned exe filter trace cases (profile ∷ rest) =
    commands exe (record { trace = trace; profile = profile }) (filtered filter profile cases)
    ++ planned exe filter trace cases rest

abbrev pub recorded : List Call → History → History
recorded [] h = h
recorded (c ∷ cs) h = recorded cs (c ∷ current_exe ∷ h)

abbrev tally : (Call → ℕ) → Harness.Outcome → List Call → Harness.Outcome
tally code outcome [] = outcome
tally code outcome (c ∷ cs) = tally code (and outcome (outcome_of (code c))) cs

abbrev pub all_succeed : (Call → ℕ) → List Call → Bool
all_succeed code [] = true
all_succeed code (c ∷ cs) = (code c == 0) && all_succeed code cs

module _ (E : Type 0) (env : Env) (exe : Text) (code : Call → ℕ)
    (runs : IsRunner env exe code) where
  text_of : (h : History) → unwrap {F = E} (sys_text current_exe) env h ≡ (ok exe, current_exe ∷ h)
  unfolding unwrap sys_text
  text_of h = rw (runs.status h current_exe, runs.found h) refl

  status_of : (c : Call) (h : History) → unwrap {F = E} (sys_number c) env h ≡ (ok (code c), c ∷ h)
  unfolding unwrap sys_number
  status_of c h = rw (runs.status h c, runs.number h c) refl

  single :
      (c : TestCase) (opts : ExecuteOptions) (h : History)
      → execute_single_test {E = E} c opts env h
        ≡ (ok (outcome_of (code (command exe opts c))), command exe opts c ∷ current_exe ∷ h)
  unfolding execute_single_test
  single c opts h =
      >>=-ok _ _ env h (text_of h)
      ∙ >>=-ok _ _ env _ (status_of (command exe opts c) (current_exe ∷ h))
      ∙ (unfold pure in refl)

  all_of :
      (cs : List TestCase) (opts : ExecuteOptions) (o : Harness.Outcome) (h : History)
      → execute_from {E = E} opts o cs env h
        ≡ (ok (tally code o (commands exe opts cs)), recorded (commands exe opts cs) h)
  unfolding execute_from pure
  all_of [] opts o h = refl
  all_of (c ∷ cs) opts o h = (>>=-ok _ _ env h) (single c opts h) ∙ all_of cs opts _ _

recorded-append :
    (xs ys : List Call) (h : History) → recorded (xs ++ ys) h ≡ recorded ys (recorded xs h)
recorded-append [] ys h = refl
recorded-append (x ∷ xs) ys h = recorded-append xs ys _

tally-append :
    (code : Call → ℕ) (o : Harness.Outcome) (xs ys : List Call)
    → tally code (tally code o xs) ys ≡ tally code o (xs ++ ys)
tally-append code o [] ys = refl
tally-append code o (x ∷ xs) ys = tally-append code (and o (outcome_of (code x))) xs ys

and_assoc : (a b c : Harness.Outcome) → and (and a b) c ≡ and a (and b c)
unfolding and
and_assoc failure b c = refl
and_assoc success b c = refl

tally-and :
    (code : Call → ℕ) (a b : Harness.Outcome) (xs : List Call)
    → tally code (and a b) xs ≡ and a (tally code b xs)
tally-and code a b [] = refl
tally-and code a b (x ∷ xs) =
    ap (λ t. tally code t xs) (and_assoc a b (outcome_of (code x)))
    ∙ tally-and code a (and b (outcome_of (code x))) xs

tally_and :
    (code : Call → ℕ) (o : Harness.Outcome) (xs ys : List Call)
    → tally code (and o (tally code success xs)) ys ≡ tally code o (xs ++ ys)
unfolding and
tally_and code failure [] ys = refl
tally_and code success [] ys = refl
tally_and code o (x ∷ xs) ys =
    ap (λ t. tally code t ys) (sym (tally-and code o (outcome_of (code x)) xs))
    ∙ tally-append code (and o (outcome_of (code x))) xs ys

tally-all_succeed :
    (code : Call → ℕ) (xs : List Call)
    → tally code success xs ≡ (if all_succeed code xs then success else failure)
unfolding and
tally-all_succeed code [] = refl
tally-all_succeed code (x ∷ xs) = elim (Bool-cases (code x == 0)) [
  | inl e ↦ rw (e, tally-all_succeed code xs) refl
  | inr e ↦ rw (e, tally-and code failure success xs) refl
]

finished :
    (E : Type 0) (env : Env) (b : Bool) (h : History)
    → finish {E = E} (if b then success else failure) env h ≡ ((if b then ok tt else exit 1), h)
unfolding finish pure leave
finished E env true h = refl
finished E env false h = refl

module _ (E : Type 0) (env : Env) (exe : Text) (code : Call → ℕ)
    (runs : IsRunner env exe code) where
  profiles_run :
      (filter : TestCase → Bool) (trace : Bool) (cases : List TestCase) (ps : List Text)
      (o : Harness.Outcome) (h : History)
      → run_profiles {E = E} filter trace cases o ps env h ≡ (
        ok (tally code o (planned exe filter trace cases ps)),
        recorded (planned exe filter trace cases ps) h,
      )
  unfolding run_profiles execute_tests pure
  profiles_run filter trace cases [] o h = refl
  profiles_run filter trace cases (p ∷ ps) o h =
      let opts : ExecuteOptions = record { trace = trace; profile = p } in
      let now = commands exe opts (filtered filter p cases) in
      let rest = planned exe filter trace cases ps in
      (>>=-ok _ _ env h) (all_of E env exe code runs (filtered filter p cases) opts success h)
      ∙ profiles_run filter trace cases ps _ _
      ∙ (rw (tally_and code o now rest, recorded-append now rest h) refl)

  -- If the check of static linking passes, every command can be started and ends with a status that
  -- no earlier call changes, then the master starts one worker for each profile and each test that
  -- is selected for it, in order, also after a failure, and ends with code 1 exactly if some worker
  -- did not end with code 0.
  pub main-planned :
      (test_filter : Option Text) (trace : Bool) (profiles : List Text) (cases : List TestCase)
      (h h' : History)
      → check_static {E = E} env h ≡ (ok tt, h')
      → main {E = E} test_filter trace profiles cases env h ≡ (
        (if all_succeed code (planned exe (get_filter test_filter) trace cases profiles)
            then ok tt
            else exit 1),
        recorded (planned exe (get_filter test_filter) trace cases profiles) h',
      )
  unfolding main
  main-planned test_filter trace profiles cases h h' static =
      let cs = planned exe (get_filter test_filter) trace cases profiles in
      let all = recorded cs h' in
      (>>-ok _ _ env h) static
      ∙ (>>=-ok _ _ env h') (profiles_run (get_filter test_filter) trace cases profiles success h')
      ∙ ap (λ o. finish {E = E} o env all) (tally-all_succeed code cs)
      ∙ finished E env (all_succeed code cs) all
