-- ===== src/Ext.antt =====
-- src/linux/ext.rs: a file system in memory with a quota, for a client to mount. Errors of `nix` and
-- of the standard library are error codes.
use minion.Base.{ℕ, ◌*◌, ◌%◌, ◌^◌, ◌==◌, ◌++◌, none, some, Text, bytes, decimal, if◌then◌else◌}
use minion.Os.{Sys, Result, success, failure, pure, fail, attempt, map_err, sys, ◌>>=◌, ◌>>◌}
use minion.Os.Calls.{create_dir, mount}

pub record Quota : Type 0 where
  pub size : ℕ

abbrev pub mebibyte : ℕ
mebibyte = 2 ^ 20

-- `Quota::bytes`
unfoldable pub of_bytes : ℕ → Quota
of_bytes n = record { size = n }

-- `Quota::mebibytes`; the product is one of `u64`.
unfoldable pub mebibytes : ℕ → Quota
mebibytes mibs = record { size = mibs * mebibyte % 2 ^ 64 }

pub data Error : Type 0 where
  syscall create_dir_failed : ℕ → Error

-- EEXIST
already_exists : ℕ → Sys Error (Unit {0})
already_exists errno = if errno == 17 then pure tt else fail (create_dir_failed errno)

created : Result ℕ (Unit {0}) → Sys Error (Unit {0})
unfolding already_exists
created (success _) = pure tt
created (failure errno) = already_exists errno

unfoldable pub make_tmpfs : Text → Quota → Sys Error (Unit {0})
unfolding created
make_tmpfs path quota = do
  result ← attempt (sys (create_dir path))
  created result
  map_err syscall
      (sys (mount none path (some (bytes "tmpfs")) 0 (some (bytes "size=" ++ decimal quota.size))))
