-- ===== src/Report.antt =====
-- src/check.rs: the storage of problems that a system check reports, and its text.
mod Tests
pub mod Render
use minion.Base.{Bool, not, List, [], ◌∷◌, ◌++◌, Text, bytes, if◌then◌else◌, ◌&&◌, true, false}

pub record CheckResult : Type 0 where
  pub errors : List Text
  pub warnings : List Text

unfoldable pub new : CheckResult
new = record { errors = []; warnings = [] }

unfoldable pub error : CheckResult → Text → CheckResult
error r message = record r { errors = r.errors ++ message ∷ [] }

unfoldable pub warning : CheckResult → Text → CheckResult
warning r message = record r { warnings = r.warnings ++ message ∷ [] }

abbrev pub is_empty : List Text → Bool
is_empty [] = true
is_empty (x ∷ xs) = false

unfoldable pub has_errors : CheckResult → Bool
has_errors r = not (is_empty r.errors)

unfoldable pub has_warnings : CheckResult → Bool
has_warnings r = not (is_empty r.warnings)

-- `for x in xs { format_args!("\t{}\n", x) }`
unfoldable pub lines : List Text → Text
lines [] = []
lines (x ∷ xs) = (9 ∷ []) ++ x ++ (10 ∷ []) ++ lines xs

section : Text → List Text → Text
unfolding lines
section title xs = if is_empty xs then [] else title ++ (10 ∷ []) ++ lines xs

-- `Display::fmt`
unfoldable pub fmt : CheckResult → Text
unfolding section
fmt r =
    if is_empty r.errors && is_empty r.warnings
    then bytes "OK"
    else section (bytes "Errors:") r.errors ++ section (bytes "Warnings:") r.warnings
