-- ===== src/Options/Paths.antt =====
-- What the program uses of std::path, over the bytes of a path: `join`, `push`, `starts_with("/")`,
-- `strip_prefix("/")` and `components`.
use mathlib.Core.List.{reverse}
use minion.Base.{
  ℕ, Bool, false, ◌&&◌, ◌||◌, List, [], ◌∷◌, ◌++◌, Text, text_eq, bytes, ◌==◌, if◌then◌else◌,
}

-- A path is absolute if it begins with a slash.
unfoldable pub is_absolute : Text → Bool
is_absolute [] = false
is_absolute (c ∷ p) = c == b'/'

unfoldable pub ends_with_slash : Text → Bool
ends_with_slash [] = false
ends_with_slash (c ∷ []) = c == b'/'
ends_with_slash (c ∷ d ∷ p) = ends_with_slash (d ∷ p)

-- `PathBuf::push` and `Path::join`: an absolute path replaces the base, any other is appended
-- behind one separator.
unfoldable pub join : Text → Text → Text
unfolding is_absolute ends_with_slash
join base p =
    if is_absolute p
    then p
    else if ends_with_slash base
    then base ++ p
    else if text_eq base []
    then p
    else base ++ b'/' ∷ p

-- The text up to the first `sep`, and what follows it.
unfoldable pub until : ℕ → Text → Text
until sep [] = []
until sep (c ∷ p) = let rest = until sep p in if c == sep then [] else c ∷ rest

unfoldable pub after : ℕ → Text → Text
after sep [] = []
after sep (c ∷ p) = let rest = after sep p in if c == sep then p else rest

-- `str::split(sep)`: the pieces between the separators, in order.
unfoldable pub split_from : ℕ → Text → Text → List Text
split_from sep piece [] = piece ∷ []
split_from sep piece (c ∷ p) =
    let next = split_from sep [] p in
    let more = split_from sep (piece ++ c ∷ []) p in if c == sep then piece ∷ next else more

pub data Component : Type 0 where
  root_dir cur_dir parent_dir : Component
  normal : Text → Component

-- Empty pieces and `.` after the start are dropped, as `Path::components` does.
unfoldable pub piece_component : Text → List Component
piece_component t =
    if text_eq t [] || text_eq t (bytes ".")
    then []
    else if text_eq t (bytes "..")
    then parent_dir ∷ []
    else normal t ∷ []

pieces_components : List Text → List Component
unfolding piece_component
pieces_components [] = []
pieces_components (t ∷ ts) = piece_component t ++ pieces_components ts

-- A relative path that begins with the piece `.` keeps it as its first component.
leading : List Text → List Component
unfolding pieces_components
leading [] = []
leading (t ∷ ts) =
    if text_eq t (bytes ".") then cur_dir ∷ pieces_components ts else pieces_components (t ∷ ts)

unfoldable pub components : Text → List Component
unfolding is_absolute pieces_components leading split_from
components p =
    if is_absolute p
    then root_dir ∷ pieces_components (split_from b'/' [] p)
    else leading (split_from b'/' [] p)

-- Leading separators and `.` pieces go. `keep` is the path from the start of the piece on.
unfoldable pub trim_left : Text → Text
trim_left [] = []
trim_left (c ∷ []) = if (c == b'/') || (c == b'.') then [] else c ∷ []
trim_left (c ∷ d ∷ p) =
    let one = trim_left (d ∷ p) in
    let two = trim_left p in
    if c == b'/' then one else if (c == b'.') && (d == b'/') then two else c ∷ d ∷ p

-- `strip_prefix("/")` of an absolute path: the components after the root, as they are written.
-- Separators and `.` pieces at both ends are not part of them.
unfoldable pub strip_root : Text → Text
unfolding trim_left
strip_root p = reverse (trim_left (reverse (trim_left p)))
