-- ===== src/Cli/Items.antt =====
-- What the readers of minion-cli/src/main.rs make of their texts.
use mathlib.Core.List.{append-nil, append_assoc}
use minion.Base.{
  ℕ, zero, suc, ◌≤◌, ◌≡◌, ap, ◌∙◌, inl, inr, true, false, none, some, List, [], ◌∷◌, ◌++◌, Text,
  arith, ◌==◌, eq_refl, length, Bool-cases,
}
use minion.Os.{success, failure}
use minion.Options.{SharedItem, until, after}
use minion.Cli.{
  EnvItem, parse_env_item, format_env_item, has_byte, splitn_from, item, item_of_parts, access_kind,
  flags_of, parse_path_exposition_item,
}

until-append : (sep : ℕ) (s t : Text) → has_byte sep s ≡ false → until sep (s ++ sep ∷ t) ≡ s
unfolding until has_byte
until-append sep [] t h = rw (eq_refl sep)
until-append sep (c ∷ s) t h = ground (arith, until-append sep s t)

after-append : (sep : ℕ) (s t : Text) → has_byte sep s ≡ false → after sep (s ++ sep ∷ t) ≡ t
unfolding after has_byte
after-append sep [] t h = rw (eq_refl sep)
after-append sep (c ∷ s) t h = ground (arith, after-append sep s t)

has_byte-append : (sep : ℕ) (s t : Text) → has_byte sep (s ++ sep ∷ t) ≡ true
unfolding has_byte
has_byte-append sep [] t = rw (eq_refl sep)
has_byte-append sep (c ∷ s) t = ground (arith, has_byte-append sep s t)

-- An item whose name has no equals sign is read back from its printed form, whatever its value.
pub parse_env_item-format_env_item :
    (v : EnvItem) → has_byte b'=' v.name ≡ false → parse_env_item (format_env_item v) ≡ some v
unfolding parse_env_item format_env_item
parse_env_item-format_env_item v h = rw (
  has_byte-append b'=' v.name v.value,
  until-append b'=' v.name v.value h,
  after-append b'=' v.name v.value h,
)

until-after : (sep : ℕ) (s : Text) → has_byte sep s ≡ true → until sep s ++ sep ∷ after sep s ≡ s
unfolding until after has_byte
until-after sep [] h = cc
until-after sep (c ∷ s) h = ground (arith, until-after sep s)

-- What the process gets for an item that was read is the text that stood on the command line.
pub format_env_item-parse_env_item :
    (src : Text) (v : EnvItem) → parse_env_item src ≡ some v → format_env_item v ≡ src
unfolding parse_env_item format_env_item
format_env_item-parse_env_item src v e = elim (Bool-cases (has_byte b'=' src)) [
  | inl h ↦ ground (arith, until-after b'=' src h)
  | inr h ↦ ground arith
]

splitn_from-append :
    (n sep : ℕ) (piece s t : Text)
    → has_byte sep s ≡ false
    → splitn_from (suc (suc n)) sep piece (s ++ sep ∷ t)
      ≡ (piece ++ s) ∷ splitn_from (suc n) sep [] t
unfolding splitn_from has_byte
splitn_from-append n sep piece [] t h = rw (eq_refl sep, append-nil piece)
splitn_from-append n sep piece (c ∷ s) t h =
    let ih = splitn_from-append n sep (piece ++ c ∷ []) s t (ground arith) in
    let e : (c == sep) ≡ false = ground arith in
    rw e (ih ∙ ap (λ p. p ∷ splitn_from (suc n) sep [] t) (append_assoc piece (c ∷ []) s))

-- An item `src:mask:dest` whose source and mask have no colon gets the source, the access that the
-- mask means, the whole rest as its destination, colons included, and no flags; or the error for
-- its mask.
pub parse_path_exposition_item_lem :
    (src mask dest : Text)
    → has_byte b':' src ≡ false
    → has_byte b':' mask ≡ false
    → parse_path_exposition_item (src ++ b':' ∷ (mask ++ b':' ∷ dest)) ≡ elim (access_kind mask) [
      | failure e ↦ failure e
      | success kind ↦
          success (record { id = none; src = src; dest = dest; kind = kind; flags = [] })
    ]
unfolding parse_path_exposition_item
parse_path_exposition_item_lem src mask dest h k = ap item_of_parts (
    splitn_from-append 1 b':' [] src (mask ++ b':' ∷ dest) h
    ∙ ap (λ r. src ∷ r) (splitn_from-append 0 b':' [] mask dest k))

splitn_from-length : (n sep : ℕ) (piece s : Text) → length (splitn_from n sep piece s) ≤ n
unfolding splitn_from
splitn_from-length zero sep piece s = omega arith
splitn_from-length (suc zero) sep piece s = omega arith
splitn_from-length (suc (suc n)) sep piece [] = omega arith
splitn_from-length (suc (suc n)) sep piece (c ∷ s) = ground (
  arith,
  splitn_from-length (suc n) sep [] s,
  splitn_from-length (suc (suc n)) sep (piece ++ c ∷ []) s,
)

item-flags :
    (src mask dest : Text) (x : SharedItem) → item src mask dest [] ≡ success x → x.flags ≡ []
unfolding item flags_of
item-flags src mask dest x e = ground arith

few_parts-flags :
    (parts : List Text) (x : SharedItem)
    → length parts ≤ 3
    → item_of_parts parts ≡ success x
    → x.flags ≡ []
unfolding item_of_parts
few_parts-flags [] x h e = cc
few_parts-flags (a ∷ []) x h e = cc
few_parts-flags (a ∷ b ∷ []) x h e = cc
few_parts-flags (a ∷ b ∷ c ∷ []) x h e = item-flags a b c x e
few_parts-flags (a ∷ b ∷ c ∷ d ∷ r) x h e = absurd (omega arith)

-- Whatever the text, an accepted item has no flags: the fourth part is never split off.
pub parse_path_exposition_item-flags :
    (text : Text) (x : SharedItem) → parse_path_exposition_item text ≡ success x → x.flags ≡ []
unfolding parse_path_exposition_item
parse_path_exposition_item-flags text x e =
    few_parts-flags _ x (splitn_from-length 3 b':' [] text) e
