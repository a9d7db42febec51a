-- ===== src/Zygote/Diagnostics.antt =====
-- src/linux/zygote.rs: `print_diagnostics`, which runs after a job's program was not found; `pop` is
-- `PathBuf::pop` of the standard library.
use mathlib.Core.List.{reverse}
use minion.Base.{
  ℕ, zero, suc, ◌/◌, ◌%◌, ◌==◌, ◌&&◌, ◌||◌, Bool, true, false, Option, none, some, List, [], ◌∷◌,
  ◌++◌, Text, bytes, take, drop, if◌then◌else◌,
}
use minion.Os.{Sys, Result, success, failure, pure, attempt, ignore, sys, sys_number, ◌>>=◌, ◌>>◌}
use minion.Os.Calls.{metadata, write, read_dir}
use minion.Options.Paths.{is_absolute}

-- A reversed path without the separators and the pieces `.` that it ends with.
unfoldable pub trim : Text → Text
trim [] = []
trim (c ∷ []) = if (c == b'/') || (c == b'.') then [] else c ∷ []
trim (c ∷ d ∷ r) =
    let rest = trim (d ∷ r) in
    let more = trim r in
    if c == b'/' then rest else if (c == b'.') && (d == b'/') then more else c ∷ d ∷ r

-- A reversed path without its last piece and the separator before it.
unfoldable pub cut : Text → Text
cut [] = []
cut (c ∷ r) = let rest = cut r in if c == b'/' then r else rest

-- How long the root or the `.` is that a path starts with.
unfoldable pub start_length : Text → ℕ
start_length [] = 0
start_length (c ∷ []) = if (c == b'/') || (c == b'.') then 1 else 0
start_length (c ∷ d ∷ p) = if (c == b'/') || ((c == b'.') && (d == b'/')) then 1 else 0

unfoldable pub body : Text → Text
unfolding start_length trim
body p = trim (reverse (drop (start_length p) p))

unfoldable pub popped : Text → Text → Text
unfolding cut trim start_length is_absolute
popped p [] = if is_absolute p then p else []
popped p (c ∷ r) = take (start_length p) p ++ reverse (trim (cut (c ∷ r)))

-- `PathBuf::pop`; it leaves the root and the empty path as they are.
unfoldable pub pop : Text → Text
unfolding body popped
pop p = popped p (body p)

-- `Metadata::is_dir`, by the mode of the file.
unfoldable pub is_dir : Result ℕ ℕ → Bool
is_dir (success mode) = mode / 4096 % 16 == 4
is_dir (failure errno) = false

-- The search for the longest prefix that is a directory; `none` if the rounds run out.
unfoldable pub existing_prefix : {E : Type 0} → ℕ → Text → Sys E (Option Text)
unfolding is_dir
existing_prefix zero path = pure none
existing_prefix (suc rounds) path = attempt (sys_number (metadata path)) >>= λ result.
    elim (is_dir result) [ true ↦ pure (some path) | false ↦ existing_prefix rounds (pop path) ]

-- What is written is not checked.
unfoldable pub say : {E : Type 0} → ℕ → Text → Sys E (Unit {0})
say out text = ignore (sys_number (write out text))

-- The directory that the search found, with its entries: how a path is shown by `Debug`, an error by
-- `Debug`, and a name by `to_string_lossy`, and what the entries of a directory are, are arguments.
module _ (shown : Text → Text) (error_text : ℕ → Text) (lossy : Text → Text)
    (entries : Text → List (Result ℕ Text)) where
  unfoldable pub entry_text : Result ℕ Text → Text
  entry_text (success name) = lossy name
  entry_text (failure errno) = bytes "<error: " ++ error_text errno ++ bytes ">"

  unfoldable pub say_items : {E : Type 0} → ℕ → List (Result ℕ Text) → Sys E (Unit {0})
  unfolding say entry_text
  say_items out [] = pure tt
  say_items out (item ∷ rest) =
      say out (bytes "\t- ") >> (say out (entry_text item ++ 10 ∷ []) >> say_items out rest)

  unfoldable pub say_listing : {E : Type 0} → ℕ → Text → Result ℕ (Unit {0}) → Sys E (Unit {0})
  unfolding say_items
  say_listing out dir (success _) = say_items out (entries dir)
  say_listing out dir (failure errno) =
      say out (bytes "couldn't list path: " ++ error_text errno ++ 10 ∷ [])

  unfoldable pub describe : {E : Type 0} → ℕ → Option Text → Sys E (Option (Unit {0}))
  unfolding say_listing
  describe out none = pure none
  describe out (some dir) = do
    say out (
        bytes "following path exists: "
        ++ shown dir
        ++ bytes ", with the following items:"
        ++ 10 ∷ [])
    items ← attempt (sys (read_dir dir))
    say_listing out dir items
    pure (some tt)

  -- `print_diagnostics`; `none` if the rounds of the search run out.
  unfoldable pub print_diagnostics : {E : Type 0} → ℕ → Text → ℕ → Sys E (Option (Unit {0}))
  unfolding describe
  print_diagnostics rounds path out = existing_prefix rounds path >>= describe out
