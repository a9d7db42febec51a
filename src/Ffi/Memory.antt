-- ===== src/Ffi/Memory.antt =====
-- minion-ffi/src/lib.rs: strings and arrays in the memory of the C caller. Pointers and structures
-- have the layout of a 64-bit machine. Reading what is not there is undefined behaviour.
pub mod Layout
use minion.Base.{
  ℕ, zero, suc, ◌+◌, ◌==◌, Bool, true, false, Option, none, some, List, [], ◌∷◌, ◌++◌, Text,
  if◌then◌else◌,
}
use minion.Options.{SharedItem, SharedItemKind, readonly, full}
use minion.Ipc.{from_ne_bytes}

-- The byte at each address that can be read.
abbrev pub Memory : Type 0
Memory = ℕ → Option ℕ

pub data Read (A : Type 0) : Type 0 where
  value : A → Read A
  undefined : Read A
  panicked : Read A

abbrev pub after : {A B : Type 0} → Read A → (A → Read B) → Read B
after (value a) f = f a
after undefined f = undefined
after panicked f = panicked

-- No walk is longer than the address space.
abbrev pub address_space : ℕ
address_space = 18446744073709551616

abbrev pub null : ℕ
null = 0

abbrev pub prepend : {A : Type 0} → A → Read (List A) → Read (List A)
prepend a r = after r (λ rest. value (a ∷ rest))

-- `CStr::from_ptr(…).to_bytes()`
unfoldable pub c_str : ℕ → Memory → ℕ → Read Text
c_str zero mem p = undefined
c_str (suc fuel) mem p = elim (mem p) [
  | none ↦ undefined
  | some b ↦ elim (b == 0) [ true ↦ value [] | false ↦ prepend b (c_str fuel mem (p + 1)) ]
]

unfoldable pub get_string : Memory → ℕ → Read Text
unfolding c_str
get_string mem buf = c_str address_space mem buf

unfoldable pub bytes_at : ℕ → Memory → ℕ → Read Text
bytes_at zero mem p = value []
bytes_at (suc n) mem p = elim (mem p) [
  | none ↦ undefined
  | some b ↦ prepend b (bytes_at n mem (p + 1))
]

-- A number of `n` bytes: a pointer has eight, an enumeration four.
unfoldable pub number_at : ℕ → Memory → ℕ → Read ℕ
unfolding bytes_at from_ne_bytes
number_at n mem p = after (bytes_at n mem p) (λ bs. value (from_ne_bytes bs))

abbrev pub pointer_at : Memory → ℕ → Read ℕ
pointer_at mem p = number_at 8 mem p

module _ (is_utf8 : Text → Bool) (mem : Memory) where
  utf8 : Text → Read Text
  utf8 s = if is_utf8 s then value s else panicked

  -- The loop of `get_string_list`.
  unfoldable pub string_list : ℕ → ℕ → Read (List Text)
  unfolding utf8
  string_list zero buf = undefined
  string_list (suc fuel) buf = after (pointer_at mem buf) λ q. elim (q == null) [
    | true ↦ value []
    | false ↦
        after (get_string mem q) λ s. after (utf8 s) λ s'. prepend s' (string_list fuel (buf + 8))
  ]

  unfoldable pub get_string_list : ℕ → Read (List Text)
  unfolding string_list
  get_string_list buf = if buf == null then value [] else string_list address_space buf

  -- The first declared access kind is number zero; there are two.
  unfoldable pub kind_of : ℕ → Read SharedItemKind
  kind_of zero = value full
  kind_of (suc zero) = value readonly
  kind_of _ = undefined

  -- One structure `SharedItem` whose path on the host is at `host_path`.
  unfoldable pub shared_item : ℕ → ℕ → Read SharedItem
  unfolding get_string_list kind_of
  shared_item p host_path = after (get_string mem host_path) λ src.
      after (pointer_at mem (p + 16)) λ sandbox_path. after (get_string mem sandbox_path) λ dest.
        after (pointer_at mem (p + 24)) λ flags_path. after (get_string_list flags_path) λ flags.
          after (number_at 4 mem p) λ tag.
            after (kind_of tag) λ kind.
              value (record { id = none; src = src; dest = dest; kind = kind; flags = flags })

  -- The loop of `minion_sandbox_create`.
  unfoldable pub shared_items : ℕ → ℕ → Read (List SharedItem)
  unfolding shared_item
  shared_items zero p = undefined
  shared_items (suc fuel) p = after (pointer_at mem (p + 8)) λ host_path. elim (host_path == null) [
    | true ↦ value []
    | false ↦ after (shared_item p host_path) λ item. prepend item (shared_items fuel (p + 32))
  ]

-- The loops of `minion_cp_spawn`.
unfoldable pub arguments : Memory → ℕ → ℕ → Read (List Text)
arguments mem zero p = undefined
arguments mem (suc fuel) p = after (pointer_at mem p) λ q. elim (q == null) [
  | true ↦ value []
  | false ↦ after (get_string mem q) λ s. prepend s (arguments mem fuel (p + 8))
]

-- One structure `EnvItem` whose name is at `q`.
unfoldable pub env_item : Memory → ℕ → ℕ → Read Text
env_item mem p q = after (get_string mem q) λ name.
    after (pointer_at mem (p + 8)) λ r. after (get_string mem r) λ v. value (name ++ b'=' ∷ v)

unfoldable pub environment : Memory → ℕ → ℕ → Read (List Text)
unfolding env_item
environment mem zero p = undefined
environment mem (suc fuel) p = after (pointer_at mem p) λ q. elim (q == null) [
  | true ↦ value []
  | false ↦ after (env_item mem p q) λ item. prepend item (environment mem fuel (p + 16))
]
