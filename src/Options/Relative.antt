-- ===== src/Options/Relative.antt =====
-- The destinations of shared items after `SandboxOptions::postprocess` of src/lib.rs.
use mathlib.Core.List.{reverse, reverse-append, reverse-reverse}
use minion.Base.{
  ◌≡◌, refl, sym, ap, ◌∙◌, false, List, [], ◌∷◌, ◌++◌, map, Text, text_eq, All, ◌==◌, ◌&&◌, arith,
  Bool-cases, inl, inr, text_eq_iff, subst, ◌||◌, Option,
}
use minion.Options.{
  SandboxOptions, SharedItem, is_absolute, trim_left, strip_root, join, make_relative,
  relative_item, postprocess, ends_with_slash, SharedItemKind,
}

-- What is trimmed off stands in front.
trim_left-suffix : (t : Text) → (s : Text) × (t ≡ s ++ trim_left t)
unfolding trim_left
trim_left-suffix [] = ([], refl)
trim_left-suffix (c ∷ []) = elim (Bool-cases ((c == b'/') || (c == b'.'))) [
  | inl e ↦ (c ∷ [], rw e)
  | inr e ↦ ([], rw e)
]
trim_left-suffix (c ∷ d ∷ p) =
    let (s, es) = trim_left-suffix (d ∷ p) in
    let (r, er) = trim_left-suffix p in
    elim (Bool-cases (c == b'/')) [
      | inl e ↦ (c ∷ s, rw e (ap (λ x. c ∷ x) es))
      | inr e ↦ elim (Bool-cases ((c == b'.') && (d == b'/'))) [
        | inl f ↦ (c ∷ d ∷ r, rw (e, f) (ap (λ x. c ∷ d ∷ x) er))
        | inr f ↦ ([], rw (e, f))
      ]
    ]

trim_left-relative : (t : Text) → is_absolute (trim_left t) ≡ false
unfolding trim_left is_absolute
trim_left-relative [] = refl
trim_left-relative (c ∷ []) = ground arith
trim_left-relative (c ∷ d ∷ p) = ground (arith, trim_left-relative (d ∷ p), trim_left-relative p)

-- A part of a relative path that stands at its start is relative.
prefix-relative : (s t : Text) → is_absolute (s ++ t) ≡ false → is_absolute s ≡ false
unfolding is_absolute
prefix-relative [] t e = refl
prefix-relative (c ∷ s) t e = e

pub strip_root-relative : (p : Text) → is_absolute (strip_root p) ≡ false
unfolding strip_root
strip_root-relative p =
    let q = trim_left p in
    let (s, e) = trim_left-suffix (reverse q) in
    let back : q ≡ reverse (trim_left (reverse q)) ++ reverse s =
      sym (reverse-reverse q) ∙ ap reverse e ∙ reverse-append s (trim_left (reverse q)) in
    prefix-relative _ (reverse s) (subst (λ x. is_absolute x ≡ false) back (trim_left-relative p))

pub make_relative-relative : (p : Text) → is_absolute (make_relative p) ≡ false
unfolding make_relative
make_relative-relative p = elim (Bool-cases (is_absolute p)) [
  | inl e ↦ rw e (strip_root-relative p)
  | inr e ↦ rw e e
]

-- A relative path stays below the base that it is joined to.
pub join-below :
    (base p : Text) → is_absolute p ≡ false → (rest : Text) × (join base p ≡ base ++ rest)
unfolding join
join-below base p e = elim (Bool-cases (ends_with_slash base)) [
  | inl f ↦ (p, rw (e, f))
  | inr f ↦ elim (Bool-cases (text_eq base [])) [
    | inl g ↦ (p, rw (e, f, g) (rw ((text_eq_iff base []).0 g)))
    | inr g ↦ (b'/' ∷ p, rw (e, f, g))
  ]
]

-- A destination is relative, and lies textually below the isolation root when joined to it.
abbrev pub IsConfined : Text → SharedItem → Type 0
IsConfined root x =
    (is_absolute x.dest ≡ false) × ((rest : Text) × (join root x.dest ≡ root ++ rest))

confined : (root : Text) (xs : List SharedItem) → All (IsConfined root) (map relative_item xs)
unfolding relative_item
confined root [] = tt
confined root (x ∷ xs) =
    let r = make_relative-relative x.dest in ((r, join-below root _ r), confined root xs)

abbrev pub unchanged : SharedItem → Option Text × Text × SharedItemKind × List Text
unchanged x = (x.id, x.src, x.kind, x.flags)

same_but_dest : (xs : List SharedItem) → map unchanged (map relative_item xs) ≡ map unchanged xs
unfolding relative_item
same_but_dest [] = refl
same_but_dest (x ∷ xs) = ap (λ r. unchanged x ∷ r) (same_but_dest xs)

-- After `postprocess` every shared item has a relative destination, which joined to the isolation
-- root is a text that begins with that root; sources, kinds, flags and all limits are unchanged.
pub postprocess-IsConfined :
    (o : SandboxOptions)
    → All (IsConfined o.isolation_root) (postprocess o).shared_items
      × (map unchanged (postprocess o).shared_items ≡ map unchanged o.shared_items)
      × (record (postprocess o) { shared_items = o.shared_items } ≡ o)
unfolding postprocess
postprocess-IsConfined o =
    (confined o.isolation_root o.shared_items, same_but_dest o.shared_items, refl)
