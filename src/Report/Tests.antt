-- ===== src/Report/Tests.antt =====
-- The text of src/check.rs at a concrete result.
use minion.Base.{◌≡◌, refl, [], ◌∷◌, bytes}
use minion.Report.{CheckResult, new, warning, fmt}

abbrev one_warning : CheckResult
one_warning = record { errors = []; warnings = bytes "slow" ∷ [] }

a_warning_is_listed : fmt (warning new (bytes "slow")) ≡ bytes "Warnings:\n\tslow\n"
unfolding fmt warning new
a_warning_is_listed = refl
