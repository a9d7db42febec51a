-- ===== src/Report/Render.antt =====
-- The text of a check's result in src/check.rs.
use minion.Base.{◌≡◌, refl, ◌↔◌, false, not, Text, List, [], ◌∷◌, bytes}
use minion.Report.{CheckResult, is_empty, has_errors, has_warnings, fmt}

ok_cases :
    (errors warnings : List Text)
    → (fmt (record { errors = errors; warnings = warnings }) ≡ bytes "OK")
      ↔ ((not (is_empty errors) ≡ false) × (not (is_empty warnings) ≡ false))
unfolding fmt
ok_cases [] [] = ((λ _. (refl, refl)), (λ _. refl))
ok_cases [] (w ∷ ws) = ((λ e. cc e), (λ (a, b). cc b))
ok_cases (x ∷ xs) ws = ((λ e. cc e), (λ (a, b). cc a))

-- The text is `OK` exactly if nothing was found: neither an error nor a warning.
pub fmt-ok :
    (r : CheckResult) → (fmt r ≡ bytes "OK") ↔ ((has_errors r ≡ false) × (has_warnings r ≡ false))
unfolding has_errors has_warnings
fmt-ok r = ok_cases r.errors r.warnings
