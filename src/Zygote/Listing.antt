-- ===== src/Zygote/Listing.antt =====
-- Why `print_diagnostics` of src/linux/zygote.rs ends, with what it prints.
use minion.Base.{
  ℕ, ◌≡◌, ◌∙◌, refl, ap, inl, inr, true, none, some, Option, List, [], ◌∷◌, ◌++◌, Text, bytes,
  length, Option-cases,
}
use minion.Os.{Env, History, Result, success, failure, ok, pure, attempt, sys, ◌>>=◌}
use minion.Os.Calls.{Call, write, read_dir}
use minion.Os.Laws.{>>-ok, >>=-ok}
use minion.Options.Paths.{is_absolute}
use minion.Zygote.Diagnostics.{say, say_items, say_listing, entry_text, describe, print_diagnostics}
use minion.Zygote.Ancestors.{ancestor, looked, IsRoot, IsDirectory, FoundAt, existing_prefix-total}

module _ (E : Type 0) (env : Env) where
  say_lem : (out : ℕ) (t : Text) (h : History) → say {E = E} out t env h ≡ (ok tt, write out t ∷ h)
  unfolding say ◌>>=◌
  say_lem out t h = elim (Option-cases (env.status h (write out t))) [
    | inl e ↦ rw e refl
    | inr (errno, e) ↦ rw e refl
  ]

  returned : {A : Type 0} (a : A) (h : History) → pure {E = E} a env h ≡ (ok a, h)
  unfolding ◌>>=◌
  returned a h = refl

  module _ (shown : Text → Text) (error_text : ℕ → Text) (lossy : Text → Text)
      (entries : Text → List (Result ℕ Text)) where
    abbrev heading : Text → Text
    heading dir =
        bytes "following path exists: "
        ++ shown dir
        ++ bytes ", with the following items:"
        ++ 10 ∷ []

    -- The line of an entry: its name, or why it could not be read.
    abbrev pub line_of : Result ℕ Text → Text
    line_of (success name) = lossy name ++ 10 ∷ []
    line_of (failure errno) = (bytes "<error: " ++ error_text errno ++ bytes ">") ++ 10 ∷ []

    -- The writes for entries, one line for each, the newest first.
    abbrev pub listed : ℕ → List (Result ℕ Text) → History → History
    listed out [] h = h
    listed out (item ∷ rest) h =
        listed out rest (write out (line_of item) ∷ write out (bytes "\t- ") ∷ h)

    -- What follows the request for the entries: all of them, or why there are none.
    abbrev pub listed_or_not : ℕ → Text → Option ℕ → History → History
    listed_or_not out dir none h = listed out (entries dir) h
    listed_or_not out dir (some errno) h =
        write out (bytes "couldn't list path: " ++ error_text errno ++ 10 ∷ []) ∷ h

    -- The report on a directory.
    abbrev pub reported : ℕ → Text → History → History
    reported out dir h =
        let asked = write out (heading dir) ∷ h in
        listed_or_not out dir (env.status asked (read_dir dir)) (read_dir dir ∷ asked)

    entry_line :
        (item : Result ℕ Text)
        → entry_text shown error_text lossy entries item ++ 10 ∷ [] ≡ line_of item
    unfolding entry_text
    entry_line (success name) = refl
    entry_line (failure errno) = refl

    said_items :
        (out : ℕ) (items : List (Result ℕ Text)) (h : History)
        → say_items shown error_text lossy entries {E = E} out items env h
          ≡ (ok tt, listed out items h)
    unfolding say_items
    said_items out [] h = unfold ◌>>=◌ in refl
    said_items out (item ∷ rest) h =
        >>-ok _ _ env h (say_lem out (bytes "\t- ") h)
        ∙ >>-ok _ _ env _
            (say_lem out (entry_text shown error_text lossy entries item ++ 10 ∷ []) _)
        ∙ said_items out rest _
        ∙ ap (λ t. (ok tt, listed out rest (write out t ∷ write out (bytes "\t- ") ∷ h)))
            (entry_line item)

    result_of : Option ℕ → Result ℕ (Unit {0})
    result_of none = success tt
    result_of (some errno) = failure errno

    tried_call :
        (c : Call) (h : History)
        → attempt {F = E} (sys c) env h ≡ (ok (result_of (env.status h c)), c ∷ h)
    unfolding ◌>>=◌ result_of
    tried_call c h = elim (Option-cases (env.status h c)) [
      | inl e ↦ rw e refl
      | inr (errno, e) ↦ rw e refl
    ]

    said_listing :
        (out : ℕ) (dir : Text) (failed : Option ℕ) (h : History)
        → say_listing shown error_text lossy entries {E = E} out dir (result_of failed) env h
          ≡ (ok tt, listed_or_not out dir failed h)
    unfolding say_listing result_of
    said_listing out dir none h = said_items out (entries dir) h
    said_listing out dir (some errno) h = say_lem out _ h

    described :
        (out : ℕ) (dir : Text) (h : History)
        → describe shown error_text lossy entries {E = E} out (some dir) env h
          ≡ (ok (some tt), reported out dir h)
    unfolding describe
    described out dir h =
        let asked = write out (heading dir) ∷ h in
        >>-ok _ _ env h (say_lem out (heading dir) h)
        ∙ >>=-ok _ _ env _ (tried_call (read_dir dir) asked)
        ∙ >>-ok _ _ env _
            (said_listing out dir (env.status asked (read_dir dir)) (read_dir dir ∷ asked))
        ∙ returned (some tt) (reported out dir h)

    -- If the root is always a directory, `print_diagnostics` of an absolute path ends, within as
    -- many rounds as the path has bytes: it looks at the path and its ancestors up to the first one
    -- that is a directory, writes which one it is and then a line for each of its entries, or why
    -- it cannot list them.
    pub print_diagnostics-total :
        (h : History) (p : Text) (out : ℕ)
        → is_absolute p ≡ true
        → ((h' : History) (q : Text) → IsRoot q → IsDirectory env h' q)
        → (k : ℕ) × (print_diagnostics shown error_text lossy entries {E = E} (length p) p out env h
            ≡ (ok (some tt), reported out (ancestor k p) (looked k p h)))
          × FoundAt env k p h
    unfolding print_diagnostics
    print_diagnostics-total h p out e root =
        let (k, found, first) = existing_prefix-total E env h p e root in
        (k, >>=-ok _ _ env h found ∙ described out (ancestor k p) (looked k p h), first)
