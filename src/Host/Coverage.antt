-- ===== src/Host/Coverage.antt =====
-- How many identifiers the check of src/linux/check.rs counts.
use minion.Base.{
  ℕ, zero, suc, ◌+◌, ◌-◌, ◌%◌, ◌≤◌, ◌<◌, ◌≡◌, ap, ◌∙◌, ◌&&◌, leb, ltb, min, max, some, List, [],
  ◌∷◌, map, All, Text, u32_limit, arith, if◌then◌else◌,
}
use minion.Report.{CheckResult}
use minion.Host.{maps, overlap, cover}

-- How many of the `n` numbers from `low` on are in the range from `start` of length `len`.
abbrev pub count_in : ℕ → ℕ → ℕ → ℕ → ℕ
count_in low zero start len = 0
count_in low (suc n) start len =
    let rest = count_in (low + 1) n start len in
    if leb start low && ltb low (start + len) then rest + 1 else rest

count_in_lem :
    (low n start len : ℕ) → count_in low n start len ≡ min (start + len) (low + n) - max start low
count_in_lem low zero start len = omega arith
count_in_lem low (suc n) start len = ground (arith, count_in_lem (low + 1) n start len)

overlap-count_in :
    (low high start len : ℕ)
    → low ≤ high
    → start + len < u32_limit
    → overlap low high start len ≡ count_in low (high - low) start len
unfolding overlap
overlap-count_in low high start len o l = ground (arith, count_in_lem low (high - low) start len)

abbrev pub total : ℕ → ℕ → List (ℕ × ℕ) → ℕ
total low high [] = 0
total low high ((start, len) ∷ rest) = count_in low (high - low) start len + total low high rest

-- A map whose lines are well formed and do not overflow is counted exactly, up to the width of the
-- counter: every line counts the identifiers of `low..high` that it maps.
pub cover-total :
    (low high covered : ℕ) (path : Text) (res : CheckResult) (ranges : List (ℕ × ℕ))
    → low ≤ high
    → covered < u32_limit
    → All (λ r. r.0 + r.1 < u32_limit) ranges
    → cover low high path (covered, res) (map (λ r. maps r.0 r.1) ranges)
      ≡ some ((covered + total low high ranges) % u32_limit, res)
unfolding cover
cover-total low high covered path res [] o c a = ap (λ n. some (n, res)) (omega arith)
cover-total low high covered path res ((start, len) ∷ rest) o c (l, a) =
    rw (overlap-count_in low high start len o l) (
      cover-total low high ((covered + count_in low (high - low) start len) % u32_limit) path res
        rest o (omega arith) a
      ∙ ap (λ n. some (n, res)) (omega arith))
