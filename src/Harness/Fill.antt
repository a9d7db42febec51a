-- ===== src/Harness/Fill.antt =====
-- minion-tests/src/tests/simple.rs: the memory that `test_out_of_memory` fills, if it gets it, and
-- the hash of it. Memory is a function from the offset of a byte; an offset is in range by the
-- bounds of the loops.
use minion.Base.{ℕ, zero, suc, ◌+◌, ◌*◌, ◌/◌, ◌%◌, ◌==◌, u64_limit, if◌then◌else◌}

abbrev alloc_size : ℕ
alloc_size = 67108864

abbrev page_size : ℕ
page_size = 4096

unfoldable store : ℕ → ℕ → (ℕ → ℕ) → ℕ → ℕ
store i byte mem j = if j == i then byte else mem j

-- The pages from `i` on, as many as the first argument says; the sum of a byte wraps.
unfoldable fill_pages : ℕ → ℕ → (ℕ → ℕ) → ℕ → ℕ
unfolding store
fill_pages zero i mem = mem
fill_pages (suc n) i mem =
    fill_pages n (i + 1) (store (i * page_size) ((mem (i * page_size / 2) + 3) % 256) mem)

-- The bytes from `j` on; `hash` is an `usize`.
unfoldable hash_bytes : ℕ → ℕ → (ℕ → ℕ) → ℕ → ℕ
hash_bytes zero j mem hash = hash
hash_bytes (suc n) j mem hash =
    hash_bytes n (j + 1) mem ((hash + mem j) % u64_limit * 3 % u64_limit)

unfoldable pub memory_hash : ℕ
unfolding fill_pages hash_bytes store
memory_hash =
    hash_bytes alloc_size 0 (fill_pages (alloc_size / page_size) 0 (store 0 45 (λ j. 0))) 0
