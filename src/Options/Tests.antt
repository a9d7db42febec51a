-- ===== src/Options/Tests.antt =====
-- The paths of src/lib.rs at concrete options.
use minion.Base.{◌≡◌, ◌++◌, refl, none, [], ◌∷◌, map, All, Text, bytes}
use minion.Options.{SandboxOptions, full, readonly, is_absolute, make_relative, join, postprocess}
use minion.Options.Relative.{IsConfined, unchanged, postprocess-IsConfined, join-below}

abbrev shared : SandboxOptions
shared = record {
  max_alive_process_count = 4;
  memory_limit = 1000;
  cpu_time_limit = 10;
  real_time_limit = 20;
  isolation_root = bytes "/root";
  shared_items =
      record { id = none; src = bytes "/bin"; dest = bytes "/bin"; kind = readonly; flags = [] }
      ∷ record { id = none; src = bytes "/a"; dest = bytes "b"; kind = full; flags = [] }
      ∷ [];
}

leading_slashes_go : make_relative (bytes "//etc/x/") ≡ bytes "etc/x"
unfolding make_relative
leading_slashes_go = refl

postprocess-IsConfined_example :
    All (IsConfined (bytes "/root")) (postprocess shared).shared_items
    × (map unchanged (postprocess shared).shared_items ≡ map unchanged shared.shared_items)
    × (record (postprocess shared) { shared_items = shared.shared_items } ≡ shared)
postprocess-IsConfined_example = postprocess-IsConfined shared

joined_below_root : (rest : Text) × (join (bytes "/root") (bytes "bin") ≡ bytes "/root" ++ rest)
unfolding join is_absolute
joined_below_root = join-below (bytes "/root") (bytes "bin") refl
