-- ===== src/Limits/Accounting.antt =====
-- What `get_cpu_usage` of src/linux/limits/cgroup_v2.rs makes of the text that the kernel writes:
-- a line for each statistic, with its name and its value.
use mathlib.Core.List.{append-nil, append_assoc, map}
use minion.Base.{
  ℕ, zero, suc, ◌+◌, ◌*◌, ◌%◌, ◌/◌, ◌≤◌, ◌<◌, ◌≡◌, refl, sym, ap, ◌∙◌, ◌==◌, false, inl, inr, List,
  [], ◌∷◌, ◌++◌, Text, bytes, decimal, digits_from, parse_uint, parse_uint-decimal, u64_limit,
  starts_with, text_eq, text_eq_iff, length, drop, ltb, All, arith, Bool-cases, if◌then◌else◌,
}
use minion.Options.{split_from}
use minion.Limits.V2.{
  trim_end_of, trim_prefixes, strip_return, lines_of, converted, usage_line, usage_lines, u64_max,
  cpu_usage_of,
}

abbrev IsDigit : ℕ → Type 0
IsDigit c = (48 ≤ c) × (c ≤ 57)

digits_from-IsDigit :
    (fuel n : ℕ) (tail : Text) → All IsDigit tail → All IsDigit (digits_from fuel n tail)
unfolding digits_from
digits_from-IsDigit zero n tail h = h
digits_from-IsDigit (suc f) n tail h = elim (Bool-cases (ltb n 10)) [
  | inl e ↦ rw e ((omega arith, ground arith), h)
  | inr e ↦
      rw e (digits_from-IsDigit f (n / 10) ((48 + n % 10) ∷ tail) ((omega arith, omega arith), h))
]

decimal-IsDigit : (n : ℕ) → All IsDigit (decimal n)
unfolding decimal
decimal-IsDigit n = digits_from-IsDigit (suc n) n [] tt

-- No end of line.
abbrev pub IsPlain : ℕ → Type 0
IsPlain c = (c == 10 ≡ false) × (c == 13 ≡ false)

digits-IsPlain : (s : Text) → All IsDigit s → All IsPlain s
digits-IsPlain [] h = tt
digits-IsPlain (c ∷ s) (d, h) = ((ground arith, ground arith), digits-IsPlain s h)

append-IsPlain : (s t : Text) → All IsPlain s → All IsPlain t → All IsPlain (s ++ t)
append-IsPlain [] t h k = k
append-IsPlain (c ∷ s) t (d, h) k = (d, append-IsPlain s t h k)

-- A statistic: its name and its value.
abbrev pub Stat : Type 0
Stat = Text × ℕ

abbrev pub stat_line : Stat → Text
stat_line (name, value) = name ++ b' ' ∷ decimal value

abbrev pub stat_text : List Stat → Text
stat_text [] = []
stat_text (s ∷ rest) = stat_line s ++ 10 ∷ stat_text rest

abbrev pub usage_name : Text
usage_name = bytes "usage_usec"

-- A statistic that the code tells apart: a name without line ends which is either that of the usage
-- or does not begin with it, and a value of 64 bits.
abbrev pub IsStat : Stat → Type 0
IsStat (name, value) =
    All IsPlain name
    × (value < u64_limit)
    × (starts_with (stat_line (name, value)) usage_name ≡ text_eq name usage_name)

-- The last usage among the statistics, in nanoseconds modulo 2 ^ 64.
abbrev pub usage : ℕ → List Stat → ℕ
usage val [] = val
usage val ((name, value) ∷ rest) =
    usage (if text_eq name usage_name then value * 1000 % u64_limit else val) rest

stat_line-IsPlain : (s : Stat) → IsStat s → All IsPlain (stat_line s)
stat_line-IsPlain (name, value) (plain, small, known) =
    append-IsPlain name (b' ' ∷ decimal value) plain
      ((refl, refl), digits-IsPlain (decimal value) (decimal-IsDigit value))

split_from-line :
    (s t piece : Text)
    → All IsPlain s
    → split_from 10 piece (s ++ 10 ∷ t) ≡ (piece ++ s) ∷ split_from 10 [] t
unfolding split_from
split_from-line [] t piece h = ap (λ p. p ∷ split_from 10 [] t) (sym (append-nil piece))
split_from-line (c ∷ s) t piece ((line, ret), h) = rw line (
    split_from-line s t (piece ++ c ∷ []) h
    ∙ ap (λ p. p ∷ split_from 10 [] t) (append_assoc piece (c ∷ []) s))

abbrev pieces : List Stat → List Text
pieces [] = [] ∷ []
pieces (s ∷ rest) = stat_line s ∷ pieces rest

split_from-stat_text :
    (ss : List Stat) → All IsStat ss → split_from 10 [] (stat_text ss) ≡ pieces ss
split_from-stat_text [] h = unfold split_from in refl
split_from-stat_text (s ∷ rest) (k, h) =
    split_from-line (stat_line s) (stat_text rest) [] (stat_line-IsPlain s k)
    ∙ ap (λ l. stat_line s ∷ l) (split_from-stat_text rest h)

strip_return_lem : (s : Text) → All IsPlain s → strip_return s ≡ s
unfolding strip_return
strip_return_lem [] h = refl
strip_return_lem (c ∷ []) ((line, ret), h) = rw ret
strip_return_lem (c ∷ d ∷ s) (p, h) = ap (λ r. c ∷ r) (strip_return_lem (d ∷ s) h)

lines_of-pieces : (ss : List Stat) → All IsStat ss → lines_of (pieces ss) ≡ map stat_line ss
unfolding lines_of
lines_of-pieces [] h = refl
lines_of-pieces (s ∷ []) (k, h) =
    ap (λ l. l ∷ []) (strip_return_lem (stat_line s) (stat_line-IsPlain s k))
lines_of-pieces (s ∷ t ∷ rest) (k, h) =
    rw (strip_return_lem (stat_line s) (stat_line-IsPlain s k))
      (ap (λ l. stat_line s ∷ l) (lines_of-pieces (t ∷ rest) h))

trim_end_of_lem : (s : Text) → All IsPlain s → trim_end_of 10 s ≡ s
unfolding trim_end_of
trim_end_of_lem [] h = refl
trim_end_of_lem (c ∷ []) ((line, ret), h) = rw line
trim_end_of_lem (c ∷ d ∷ s) ((line, ret), h) = rw (trim_end_of_lem (d ∷ s) h) refl

digits-starts_with : (s : Text) → All IsDigit s → starts_with s (bytes "usage_usec ") ≡ false
unfolding starts_with
digits-starts_with [] h = refl
digits-starts_with (c ∷ s) ((low, high), h) = ground arith

trim_prefixes_stop : (n : ℕ) (p s : Text) → starts_with s p ≡ false → trim_prefixes n p s ≡ s
unfolding trim_prefixes
trim_prefixes_stop zero p s e = refl
trim_prefixes_stop (suc n) p s e = rw e refl

trim_prefixes_lem :
    (n v : ℕ) → trim_prefixes (suc n) (bytes "usage_usec ") (stat_line (usage_name, v)) ≡ decimal v
unfolding trim_prefixes starts_with
trim_prefixes_lem n v =
    trim_prefixes_stop n (bytes "usage_usec ") (decimal v)
      (digits-starts_with (decimal v) (decimal-IsDigit v))

usage_line_named :
    (val v : ℕ) → v < u64_limit → usage_line val (stat_line (usage_name, v)) ≡ v * 1000 % u64_limit
unfolding usage_line starts_with converted
usage_line_named val v small =
    let line = stat_line (usage_name, v) in
    ap (λ t. converted val (parse_uint u64_limit (trim_end_of 10 t)))
      (trim_prefixes_lem (length (drop 1 line)) v)
    ∙ ap (λ t. converted val (parse_uint u64_limit t))
        (trim_end_of_lem (decimal v) (digits-IsPlain (decimal v) (decimal-IsDigit v)))
    ∙ ap (converted val) (parse_uint-decimal u64_limit v small)

usage_line_lem :
    (val v : ℕ) (name : Text)
    → IsStat (name, v)
    → usage_line val (stat_line (name, v))
      ≡ (if text_eq name usage_name then v * 1000 % u64_limit else val)
usage_line_lem val v name (plain, small, known) = elim (Bool-cases (text_eq name usage_name)) [
  | inl e ↦ rw (e, (text_eq_iff name usage_name).0 e) (usage_line_named val v small)
  | inr e ↦ rw e (unfold usage_line in rw (known, e) refl)
]

usage_lines_lem :
    (ss : List Stat) (val : ℕ) → All IsStat ss → usage_lines val (map stat_line ss) ≡ usage val ss
unfolding usage_lines
usage_lines_lem [] val h = refl
usage_lines_lem ((name, v) ∷ rest) val (k, h) =
    ap (λ n. usage_lines n (map stat_line rest)) (usage_line_lem val v name k)
    ∙ usage_lines_lem rest _ h

-- From a file of statistics, one to a line, the driver takes the value of the last one named
-- `usage_usec`, in nanoseconds modulo 2 ^ 64, whatever the others are; without one it reports the
-- greatest number of 64 bits.
pub cpu_usage_of-stat_text :
    (ss : List Stat) → All IsStat ss → cpu_usage_of (stat_text ss) ≡ usage u64_max ss
unfolding cpu_usage_of
cpu_usage_of-stat_text ss h =
    ap (λ l. usage_lines u64_max (lines_of l)) (split_from-stat_text ss h)
    ∙ ap (usage_lines u64_max) (lines_of-pieces ss h)
    ∙ usage_lines_lem ss u64_max h
