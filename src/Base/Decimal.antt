-- ===== src/Base/Decimal.antt =====
-- Decimal numbers as std and itoa print and read them: `u32` and `u64` by their limit.
use Prim.Native.Nat.{ℕ, zero, suc, ◌+◌, ◌-◌, ◌*◌, ◌/◌, ◌%◌, ◌^◌, ◌≤◌, ◌<◌}
use mathlib.Core.Path.{◌≡◌, refl, ◌∙◌, ap}
use mathlib.Core.Bool.{◌&&◌}
use mathlib.Core.Logic.{inl, inr}
use mathlib.Core.Option.{Option, none, some}
use mathlib.Core.List.{[], ◌∷◌}
use native.Mathlib.Omega.{arith}
use minion.Base.Tests.{ltb, leb, ◌==◌, if◌then◌else◌, Bool-cases}
use minion.Base.Strings.{Text}

unfoldable pub digits_from : ℕ → ℕ → Text → Text
digits_from zero n tail = tail
digits_from (suc fuel) n tail =
    let rest = digits_from fuel (n / 10) ((48 + n % 10) ∷ tail) in
    if ltb n 10 then (48 + n) ∷ tail else rest

-- The number has at most as many digits as the fuel has units.
unfoldable pub decimal : ℕ → Text
unfolding digits_from
decimal n = digits_from (suc n) n []

unfoldable pub parse_digits : ℕ → ℕ → Text → Option ℕ
parse_digits limit acc [] = some acc
parse_digits limit acc (c ∷ s) =
    let value = acc * 10 + (c - 48) in
    let rest = parse_digits limit value s in
    if leb 48 c && leb c 57 && ltb value limit then rest else none

-- `str::parse` into an unsigned type whose values lie below `limit`: an optional plus sign and at
-- least one digit, and no overflow.
unfoldable pub parse_uint : ℕ → Text → Option ℕ
unfolding parse_digits
parse_uint limit [] = none
parse_uint limit (c ∷ []) = if c == b'+' then none else parse_digits limit 0 (c ∷ [])
parse_uint limit (c ∷ d ∷ s) =
    if c == b'+' then parse_digits limit 0 (d ∷ s) else parse_digits limit 0 (c ∷ d ∷ s)

abbrev pub u32_limit : ℕ
u32_limit = 2 ^ 32

abbrev pub u64_limit : ℕ
u64_limit = 2 ^ 64

parse_digits_step :
    (limit acc d : ℕ) (tail : Text)
    → d < 10
    → acc * 10 + d < limit
    → parse_digits limit acc ((48 + d) ∷ tail) ≡ parse_digits limit (acc * 10 + d) tail
unfolding parse_digits
parse_digits_step limit acc d tail h l =
    let e : 48 + d - 48 ≡ d = omega arith in rw e (ground arith)

parse_digits-digits_from :
    (limit fuel n : ℕ) (tail : Text)
    → n < fuel
    → n < limit
    → parse_digits limit 0 (digits_from fuel n tail) ≡ parse_digits limit n tail
unfolding digits_from
parse_digits-digits_from limit zero n tail h l = absurd (omega arith)
parse_digits-digits_from limit (suc f) n tail h l = elim (Bool-cases (ltb n 10)) [
  | inl e ↦ rw e (
      parse_digits_step limit 0 n tail (ground arith) (omega arith)
      ∙ ap (λ v. parse_digits limit v tail) (omega arith))
  | inr e ↦ rw e (
      parse_digits-digits_from limit f (n / 10) ((48 + n % 10) ∷ tail) (ground arith) (omega arith)
      ∙ parse_digits_step limit (n / 10) (n % 10) tail (omega arith) (omega arith)
      ∙ ap (λ v. parse_digits limit v tail) (omega arith))
]

-- A text whose first byte is a digit.
abbrev pub BeginsWithDigit : Text → Type 0
BeginsWithDigit [] = ⊥
BeginsWithDigit (c ∷ s) = (48 ≤ c) × (c ≤ 57)

digits_from-BeginsWithDigit :
    (fuel n : ℕ) (tail : Text) → n < fuel → BeginsWithDigit (digits_from fuel n tail)
unfolding digits_from
digits_from-BeginsWithDigit zero n tail h = absurd (omega arith)
digits_from-BeginsWithDigit (suc f) n tail h = elim (Bool-cases (ltb n 10)) [
  | inl e ↦ rw e (ground arith, ground arith)
  | inr e ↦ rw e (digits_from-BeginsWithDigit f (n / 10) ((48 + n % 10) ∷ tail) (ground arith))
]

pub decimal-BeginsWithDigit : (n : ℕ) → BeginsWithDigit (decimal n)
unfolding decimal
decimal-BeginsWithDigit n = digits_from-BeginsWithDigit (suc n) n [] (omega arith)

parse_uint-digits :
    (limit : ℕ) (s : Text) → BeginsWithDigit s → parse_uint limit s ≡ parse_digits limit 0 s
unfolding parse_uint
parse_uint-digits limit [] h = absurd h
parse_uint-digits limit (c ∷ []) h = ground arith
parse_uint-digits limit (c ∷ d ∷ s) h = ground arith

-- Reading a printed number gives it back, if it is in the range of the type read.
pub parse_uint-decimal : (limit n : ℕ) → n < limit → parse_uint limit (decimal n) ≡ some n
parse_uint-decimal limit n l =
    parse_uint-digits limit (decimal n) (decimal-BeginsWithDigit n)
    ∙ unfold decimal in
      parse_digits-digits_from limit (suc n) n [] (omega arith) l ∙ unfold parse_digits in refl
