-- ===== src/Limits/Attempts.antt =====
-- `Display for DriverInitializationError` of src/linux/limits.rs: the report when no driver could be
-- set up. How settings are shown by `Debug` and errors by `Display`, and the chain of an error's
-- sources, are arguments.
use minion.Base.{◌≡◌, sym, ap, ◌∙◌, List, [], ◌∷◌, ◌++◌, Text, bytes}
use mathlib.Core.List.{append_assoc, append-nil}
use minion.Errors.{Error, RawSettings, Attempts, no_attempts, attempt}
use minion.Limits.Driver.{push_attempt}

-- `while let Some(e) = err`
unfoldable pub causes : List Text → Text
causes [] = []
causes (e ∷ rest) = bytes "\tCaused by " ++ e ++ 10 ∷ causes rest

module _ (debug : RawSettings → Text) (display : Error → Text) (sources : Error → List Text) where
  -- What one attempt adds.
  unfoldable pub tried : RawSettings → Error → Text
  unfolding causes
  tried settings error =
      bytes "Tried "
      ++ debug settings
      ++ bytes ", got: "
      ++ display error
      ++ 10 ∷ causes (sources error)

  unfoldable pub fmt : Attempts → Text
  unfolding tried
  fmt no_attempts = []
  fmt (attempt settings error rest) = tried settings error ++ fmt rest

  -- An attempt that is added is reported after those before it.
  pub fmt-push_attempt :
      (a : Attempts) (settings : RawSettings) (error : Error)
      → fmt (push_attempt a settings error) ≡ fmt a ++ tried settings error
  unfolding fmt push_attempt
  fmt-push_attempt no_attempts settings error = append-nil (tried settings error)
  fmt-push_attempt (attempt s e rest) settings error =
      ap (λ t. tried s e ++ t) (fmt-push_attempt rest settings error)
      ∙ sym (append_assoc (tried s e) (fmt rest) (tried settings error))
