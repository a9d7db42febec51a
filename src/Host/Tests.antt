-- ===== src/Host/Tests.antt =====
-- The count of src/linux/check.rs at a concrete map.
use minion.Base.{◌≡◌, arith, some, [], ◌∷◌, bytes}
use minion.Report.{CheckResult}
use minion.Host.{cover, maps}
use minion.Host.Coverage.{cover-total}

abbrev clean : CheckResult
clean = record { errors = []; warnings = [] }

cover-total_example :
    cover 100 110 (bytes "/proc/self/uid_map") (0, clean) (maps 0 105 ∷ maps 107 50 ∷ [])
    ≡ some (8, clean)
cover-total_example =
    cover-total 100 110 0 (bytes "/proc/self/uid_map") clean ((0, 105) ∷ (107, 50) ∷ [])
      (omega arith) (omega arith) (omega arith, (omega arith, tt))
