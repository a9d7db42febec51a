-- ===== src/Codegen/Tests.antt =====
-- The theorem on the generator at an empty file.
use minion.Base.{◌≡◌, refl, ◌++◌, Option, some, [], ◌∷◌, Text, bytes, text_eq}
use minion.Os.{err}
use minion.Os.Samples.{quiet}
use minion.Os.Calls.{read_to_string, write_file, current_dir}
use minion.Options.Paths.{join}
use minion.Codegen.{
  Context, contents, line, export_policy, files_were_updated, generated_file, main,
}
use minion.Codegen.Writes.{main_lem}

abbrev compile : Context → Option Text
compile c = some []

abbrev text : Text
text =
    line (bytes "// this is @generated file")
    ++ line (bytes "// codegen: minion-codegen/src/seccomp_policies.rs")
    ++ line (export_policy (bytes "UNRESTRICTED") [])
    ++ line (export_policy (bytes "DENY_DANGEROUS") [])
    ++ line (export_policy (bytes "PURE") [])

abbrev file : Text
file = join [] generated_file

main_lem_example :
    main compile quiet []
    ≡ (err files_were_updated, write_file file text ∷ read_to_string file ∷ current_dir ∷ [])
unfolding contents text_eq
main_lem_example = main_lem compile text quiet [] refl refl refl
