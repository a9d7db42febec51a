-- ===== src/Host.antt =====
-- src/linux/check.rs: the check of the host. The files, the capabilities of the process, the result
-- of the kernel test and that of `Driver::new` are arguments, errors by their texts; 32-bit sums
-- wrap, as in a release build.
pub mod Coverage
mod Tests
use minion.Base.{
  ℕ, ◌+◌, ◌-◌, ◌/◌, ◌%◌, ◌==◌, ◌||◌, leb, min, max, Bool, Option, none, some, List, [], ◌∷◌, ◌++◌,
  map, Text, bytes, decimal, parse_uint, u32_limit, if◌then◌else◌,
}
use minion.Os.{Result, success, failure}
use minion.Options.{split_from}
use minion.Limits.V2.{lines_of}
use minion.Settings.{Settings, default_settings}
use minion.Report.{CheckResult, error, warning}

-- The fields of a line that `split_ascii_whitespace` yields.
is_space : ℕ → Bool
is_space c = (c == 32) || (c == 9) || (c == 10) || (c == 12) || (c == 13)

nonempty : Text → List Text → List Text
nonempty [] rest = rest
nonempty (c ∷ s) rest = (c ∷ s) ∷ rest

unfoldable pub fields_from : Text → Text → List Text
unfolding is_space nonempty
fields_from word [] = nonempty word []
fields_from word (c ∷ s) =
    let next = fields_from [] s in
    let more = fields_from (word ++ c ∷ []) s in if is_space c then nonempty word next else more

-- The identifiers that one line of a map covers inside the namespace: start and length.
pub data Line : Type 0 where
  maps : ℕ → ℕ → Line
  not_three_fields : Line
  unparsable : Line

unfoldable pub line_of : List Text → Line
line_of (a ∷ b ∷ c ∷ []) = elim (parse_uint u32_limit a) [
  | none ↦ unparsable
  | some start ↦ elim (parse_uint u32_limit c) [ none ↦ unparsable | some len ↦ maps start len ]
]
line_of _ = not_three_fields

unfoldable pub parse_line : Text → Line
unfolding fields_from line_of
parse_line text = line_of (fields_from [] text)

-- How many identifiers of `low..high` the range from `start` of length `len` holds; the sum wraps,
-- as in a release build.
unfoldable pub overlap : ℕ → ℕ → ℕ → ℕ → ℕ
overlap low high start len =
    let begin = max start low in
    let end = min ((start + len) % u32_limit) high in if leb begin end then end - begin else 0

misparsed : Text → Text
misparsed path =
    bytes "failed to parse a line in "
    ++ path
    ++ bytes ", this can lead to false positives: line did not contain three fields"

-- The loop over the lines of a map: the identifiers covered so far and the problems found. `none` is
-- the panic of `parse().unwrap()`.
unfoldable pub cover : ℕ → ℕ → Text → ℕ × CheckResult → List Line → Option (ℕ × CheckResult)
unfolding overlap misparsed
cover low high path (covered, res) [] = some (covered, res)
cover low high path (covered, res) (maps start len ∷ rest) =
    cover low high path ((covered + overlap low high start len) % u32_limit, res) rest
cover low high path (covered, res) (not_three_fields ∷ rest) =
    cover low high path (covered, warning res (misparsed path)) rest
cover low high path (covered, res) (unparsable ∷ rest) = none

unmapped : Settings → Text → ℕ → Text
unmapped settings path covered =
    bytes "Settings specify a range ["
    ++ decimal settings.uid.low
    ++ bytes "; "
    ++ decimal settings.uid.high
    ++ bytes "), but "
    ++ path
    ++ bytes " only maps "
    ++ decimal covered
    ++ bytes " identifiers"

unfoldable pub verdict : Settings → Text → ℕ × CheckResult → CheckResult
unfolding unmapped
verdict settings path (covered, res) =
    if covered == (settings.uid.high - settings.uid.low)
    then res
    else error res (unmapped settings path covered)

-- One round of the loop over the two map files: a file that cannot be read gives the cause.
unfoldable pub check_map : Settings → Text → Result Text Text → CheckResult → Option CheckResult
unfolding cover verdict parse_line
check_map settings path (failure cause) res = some (
    warning res
      (bytes "failed to read " ++ path ++ bytes ", unable to perform come checks: " ++ cause))
check_map settings path (success mapping) res =
    elim (cover settings.uid.low settings.uid.high path (0, res)
      (map parse_line (lines_of (split_from 10 [] mapping)))) [
        | none ↦ none
        | some found ↦ some (verdict settings path found)
      ]

abbrev pub cap_setgid : ℕ
cap_setgid = 64

abbrev pub cap_setuid : ℕ
cap_setuid = 128

-- `caps & CAP == 0`, for a capability that is a power of two.
lacks : ℕ → ℕ → Bool
lacks caps cap = caps / cap % 2 == 0

unfoldable pub check_caps : ℕ → CheckResult → CheckResult
unfolding lacks
check_caps caps res =
    let res' = if lacks caps cap_setuid then error res (bytes "CAP_SETUID missing") else res in
    if lacks caps cap_setgid then error res' (bytes "CAP_GETUID missing") else res'

-- What the host shows to the check.
pub record Host : Type 0 where
  pub pidfd_supported : Bool
  pub driver_error : Option Text
  pub capeff : Result Text ℕ
  pub uid_map : Result Text Text
  pub gid_map : Result Text Text

unfoldable pub check_uid : Settings → Host → CheckResult → Option CheckResult
unfolding check_caps check_map
check_uid settings host res = elim host.capeff [
  | failure cause ↦ some (warning res cause)
  | success caps ↦
      elim (check_map settings (bytes "/proc/self/uid_map") host.uid_map (check_caps caps res)) [
        | none ↦ none
        | some res' ↦ check_map settings (bytes "/proc/self/gid_map") host.gid_map res'
      ]
]

unfoldable pub check : Settings → Host → CheckResult → Option CheckResult
unfolding check_uid
check settings host res =
    let res1 =
      if host.pidfd_supported
      then res
      else warning res (bytes "PID file descriptors not supported") in
    let res2 : CheckResult = elim host.driver_error [
      | none ↦ res1
      | some cause ↦ error res1 (bytes "Resource limits failure: " ++ cause)
    ] in
    if settings.rootless then some res2 else check_uid settings host res2

-- `minion::check` of src/check.rs: with the default settings, of the variable and the effective user.
unfoldable pub system_check : Option Text → Bool → Host → CheckResult → Option CheckResult
unfolding check
system_check var have_root host res = check (default_settings var have_root) host res
