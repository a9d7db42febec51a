-- ===== src/Ffi/Memory/Layout.antt =====
-- What a memory holds, and that minion-ffi/src/lib.rs reads just that.
use minion.Base.{
  ℕ, zero, suc, ◌+◌, ◌<◌, ◌≡◌, ◌≢◌, refl, false, ◌==◌, some, List, [], ◌∷◌, ◌++◌, map, Text, arith,
  length,
}
use minion.Ffi.Memory.{
  Memory, value, after, address_space, null, c_str, get_string, pointer_at, arguments, environment,
  env_item,
}

-- A string that ends with the first zero byte.
abbrev pub CString : Memory → ℕ → Text → Type 0
CString mem p [] = mem p ≡ some 0
CString mem p (c ∷ s) = (mem p ≡ some c) × (c ≢ 0) × CString mem (p + 1) s

c_str-CString :
    (fuel : ℕ) (mem : Memory) (p : ℕ) (s : Text)
    → CString mem p s
    → length s < fuel
    → c_str fuel mem p ≡ value s
unfolding c_str
c_str-CString zero mem p s h l = absurd (omega arith)
c_str-CString (suc fuel) mem p [] h l = rw (h, c_str) refl
c_str-CString (suc fuel) mem p (c ∷ s) (h, ne, rest) l =
    let other : (c == 0) ≡ false = ground arith in
    rw (h, c_str, other, c_str-CString fuel mem (p + 1) s rest (omega arith)) refl

-- A string behind a pointer that is not null, in an address space of that size.
abbrev pub StringAt : Memory → ℕ → Text → Type 0
StringAt mem q s = (q ≢ null) × CString mem q s × (length s < address_space)

pub get_string-StringAt :
    (mem : Memory) (q : ℕ) (s : Text) → StringAt mem q s → get_string mem q ≡ value s
unfolding get_string
get_string-StringAt mem q s (ne, h, l) = c_str-CString address_space mem q s h l

-- An array of pointers to strings, with a null pointer at its end.
abbrev pub Strings : Memory → ℕ → List Text → Type 0
Strings mem p [] = pointer_at mem p ≡ value null
Strings mem p (s ∷ rest) =
    (q : ℕ) × (pointer_at mem p ≡ value q) × StringAt mem q s × Strings mem (p + 8) rest

not_null : (q : ℕ) → q ≢ null → (q == null) ≡ false
not_null q ne = ground arith

pub arguments-Strings :
    (mem : Memory) (fuel p : ℕ) (ss : List Text)
    → Strings mem p ss
    → length ss < fuel
    → arguments mem fuel p ≡ value ss
unfolding arguments
arguments-Strings mem zero p ss h l = absurd (omega arith)
arguments-Strings mem (suc fuel) p [] h l = rw h refl
arguments-Strings mem (suc fuel) p (s ∷ rest) (q, e, at_q, more) l =
    rw
      (
        e,
        after,
        not_null q at_q.0,
        get_string-StringAt mem q s at_q,
        arguments-Strings mem fuel (p + 8) rest more (omega arith),
      )
      refl

-- An array of names and values, with a null pointer for a name at its end.
abbrev pub Variables : Memory → ℕ → List (Text × Text) → Type 0
Variables mem p [] = pointer_at mem p ≡ value null
Variables mem p ((name, v) ∷ rest) =
    (q : ℕ) × (r : ℕ) × (pointer_at mem p ≡ value q)
    × (pointer_at mem (p + 8) ≡ value r)
    × StringAt mem q name
    × StringAt mem r v
    × Variables mem (p + 16) rest

abbrev pub assignment : Text × Text → Text
assignment (name, v) = name ++ b'=' ∷ v

pub environment-Variables :
    (mem : Memory) (fuel p : ℕ) (vs : List (Text × Text))
    → Variables mem p vs
    → length vs < fuel
    → environment mem fuel p ≡ value (map assignment vs)
unfolding environment env_item
environment-Variables mem zero p vs h l = absurd (omega arith)
environment-Variables mem (suc fuel) p [] h l = rw h refl
environment-Variables mem (suc fuel) p ((name, v) ∷ rest) (q, r, e, f, at_q, at_r, more) l =
    rw
      (
        e,
        after,
        not_null q at_q.0,
        get_string-StringAt mem q name at_q,
        f,
        get_string-StringAt mem r v at_r,
        environment-Variables mem fuel (p + 16) rest more (omega arith),
      )
      refl
