-- ===== src/Codegen.antt =====
-- minion-codegen/src/main.rs and minion-codegen/src/seccomp_policies.rs: the generator of
-- src/linux/seccomp/gen.rs. `compile` is what the seccomp library exports for a context, or `none`
-- if a step fails. A flag of the process, DID_WRITES, is what `put_file` returns.
pub mod Writes
mod Tests
use minion.Base.{
  ℕ, ◌++◌, Bool, true, false, Option, none, some, List, [], ◌∷◌, Text, text_eq, bytes, decimal, map,
  if◌then◌else◌,
}
use minion.Os.{
  Sys, Result, success, failure, pure, fail, attempt, map_err, sys, sys_text, ◌>>=◌, ◌>>◌,
}
use minion.Os.Calls.{read_to_string, write_file, current_dir}
use minion.Options.Paths.{join}

pub data Action : Type 0 where
  allow : Action
  errno : ℕ → Action

pub record Rule : Type 0 where
  pub call : ℕ
  pub action : Action

pub record Context : Type 0 where
  pub default : Action
  pub rules : List Rule

-- EPERM
abbrev pub not_permitted : Action
not_permitted = errno 1

-- ptrace, process_vm_readv, process_vm_writev and kill, as x86-64 numbers them.
abbrev pub dangerous_syscalls : List ℕ
dangerous_syscalls = 101 ∷ 310 ∷ 311 ∷ 62 ∷ []

-- exit, fork, clone, read, write, wait4, waitid and execve.
abbrev pub safe_syscalls : List ℕ
safe_syscalls = 60 ∷ 57 ∷ 56 ∷ 0 ∷ 1 ∷ 61 ∷ 247 ∷ 59 ∷ []

abbrev pub rules_of : Action → List ℕ → List Rule
rules_of action calls = map (λ call. record { call = call; action = action }) calls

unfoldable pub new_deny_dangerous : Context
new_deny_dangerous = record { default = allow; rules = rules_of not_permitted dangerous_syscalls }

unfoldable pub new_unrestricted : Context
new_unrestricted = record { default = allow; rules = [] }

unfoldable pub new_pure : Context
new_pure = record { default = not_permitted; rules = rules_of allow safe_syscalls }

numbers_from : Text → List ℕ → Text
numbers_from separator [] = []
numbers_from separator (b ∷ bs) = separator ++ decimal b ++ numbers_from (bytes ", ") bs

-- `{:?}` of a slice of bytes
unfoldable pub debug_bytes : Text → Text
unfolding numbers_from
debug_bytes bs = bytes "[" ++ numbers_from [] bs ++ bytes "]"

unfoldable pub export_policy : Text → Text → Text
unfolding debug_bytes
export_policy name bs =
    bytes "pub (in super) const " ++ name ++ bytes ": &[u8] = &" ++ debug_bytes bs ++ bytes ";"

abbrev line : Text → Text
line s = s ++ 10 ∷ []

module _ (compile : Context → Option Text) where
  -- The text of the file.
  unfoldable pub contents : Option Text
  unfolding new_unrestricted new_deny_dangerous new_pure export_policy
  contents = elim (compile new_unrestricted) [
    | none ↦ none
    | some u ↦ elim (compile new_deny_dangerous) [
      | none ↦ none
      | some d ↦ elim (compile new_pure) [
        | none ↦ none
        | some p ↦ some (
            line (bytes "// this is @generated file")
            ++ line (bytes "// codegen: minion-codegen/src/seccomp_policies.rs")
            ++ line (export_policy (bytes "UNRESTRICTED") u)
            ++ line (export_policy (bytes "DENY_DANGEROUS") d)
            ++ line (export_policy (bytes "PURE") p))
      ]
    ]
  ]

pub data Error : Type 0 where
  io : ℕ → Error
  seccomp : Error
  files_were_updated : Error

abbrev pub is_same : Text → Result ℕ Text → Bool
is_same text (success bs) = text_eq bs text
is_same text (failure e) = false

unfoldable pub update_file : Text → Text → Bool → Sys Error Bool
update_file path text true = pure false
update_file path text false = map_err io (sys (write_file path text)) >> pure true

-- Whether the file was written.
unfoldable pub put_file : Text → Text → Sys Error Bool
unfolding update_file
put_file path text = do
  dir ← map_err io (sys_text current_dir)
  bs ← attempt (sys_text (read_to_string (join dir path)))
  update_file (join dir path) text (is_same text bs)

abbrev pub generated_file : Text
generated_file = bytes "src/linux/seccomp/gen.rs"

unfoldable pub put_contents : Option Text → Sys Error Bool
unfolding put_file
put_contents none = fail seccomp
put_contents (some s) = put_file generated_file s

unfoldable pub gen : (Context → Option Text) → Sys Error Bool
unfolding contents put_contents
gen compile = put_contents (contents compile)

unfoldable pub conclude : Bool → Sys Error (Unit {0})
conclude true = fail files_were_updated
conclude false = pure tt

unfoldable pub main : (Context → Option Text) → Sys Error (Unit {0})
unfolding gen conclude
main compile = do did_writes ← gen compile; conclude did_writes
