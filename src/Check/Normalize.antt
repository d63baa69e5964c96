-- ===== src/Check/Normalize.antt =====
-- checks/__init__.py, Check.normalize and Check.normalize_device_name, on byte strings.
use dd_agent.Prelude.{
  ℕ, zero, suc, ◌+◌, ◌-◌, ◌≡◌, refl, length, Option, none, some, [], ◌∷◌, ◌++◌, map, Bool, false,
  ◌&&◌, ◌||◌, ◌==◌, leb, if◌then◌else◌, All, All-append, Bool-cases, Option-cases, inl, inr,
}
use dd_agent.Prelude.Text.{Text, codes}
use dd_agent.Packet.Split.{is_space, trim_right, drop_spaces}
use dd_agent.Packet.Slice.{replace, replace_from, after_prefix}

-- ch in s
abbrev among : ℕ → Text → Bool
among c [] = false
among c (d ∷ ds) = c == d || among c ds

-- the class [,\+\*\-/()\[\]{}\s]
unfoldable pub is_special : ℕ → Bool
is_special c = among c (codes ",+*-/()[]{}") || is_space c

abbrev pub underscored : Text → Text
underscored s = map (λ c. if is_special c then b'_' else c) s

abbrev starts_with : ℕ → Text → Bool
starts_with c [] = false
starts_with c (d ∷ s) = d == c

-- '__+' becomes '_'
unfoldable pub collapse : Text → Text
collapse [] = []
collapse (c ∷ s) =
    let rest = collapse s in if c == b'_' && starts_with b'_' rest then rest else c ∷ rest

-- '^_' and '_$' are deleted
unfoldable pub drop_first : Text → Text
drop_first [] = []
drop_first (c ∷ s) = if c == b'_' then s else c ∷ s

unfoldable pub drop_last : Text → Text
drop_last [] = []
drop_last (c ∷ []) = if c == b'_' then [] else c ∷ []
drop_last (c ∷ d ∷ s) = c ∷ drop_last (d ∷ s)

unfoldable pub normalized : Text → Text
unfolding is_special collapse drop_first drop_last replace_from
normalized metric =
    replace (codes "_.") (codes ".")
      (replace (codes "._") (codes ".") (drop_last (drop_first (collapse (underscored metric)))))

unfoldable pub normalize : Text → Option Text → Text
unfolding normalized
normalize metric none = normalized metric
normalize metric (some prefix) = prefix ++ (b'.' ∷ normalized metric)

abbrev lower : ℕ → ℕ
lower c = if leb b'A' c && leb c b'Z' then c + 32 else c

unfoldable pub normalize_device_name : Text → Text
normalize_device_name device_name =
    map (λ c. if c == b' ' then b'_' else c) (map lower (trim_right (drop_spaces device_name)))

abbrev IsPlain : Text → Type 0
IsPlain = All (λ c. is_special c ≡ false)

underscore_lem : is_special b'_' ≡ false
unfolding is_special
underscore_lem = refl

dot-IsPlain : IsPlain (codes ".")
unfolding is_special
dot-IsPlain = (refl, tt)

underscored-IsPlain : (s : Text) → IsPlain (underscored s)
underscored-IsPlain [] = tt
underscored-IsPlain (c ∷ s) = (
  elim (Bool-cases (is_special c)) [
    | inl special ↦ rw special underscore_lem
    | inr plain ↦ rw (plain, plain) refl
  ],
  underscored-IsPlain s,
)

collapse-IsPlain : (s : Text) → IsPlain s → IsPlain (collapse s)
unfolding collapse
collapse-IsPlain [] h = tt
collapse-IsPlain (c ∷ s) h = elim (Bool-cases (c == b'_' && starts_with b'_' (collapse s))) [
  | inl again ↦ rw (again, collapse) (collapse-IsPlain s h.1)
  | inr once ↦ rw (once, collapse) (h.0, collapse-IsPlain s h.1)
]

drop_first-IsPlain : (s : Text) → IsPlain s → IsPlain (drop_first s)
unfolding drop_first
drop_first-IsPlain [] h = tt
drop_first-IsPlain (c ∷ s) h = elim (Bool-cases (c == b'_')) [
  | inl bar ↦ rw (bar, drop_first) h.1
  | inr other ↦ rw (other, drop_first) h
]

drop_last-IsPlain : (s : Text) → IsPlain s → IsPlain (drop_last s)
unfolding drop_last
drop_last-IsPlain [] h = tt
drop_last-IsPlain (c ∷ []) h = elim (Bool-cases (c == b'_')) [
  | inl bar ↦ rw (bar, drop_last) tt
  | inr other ↦ rw (other, drop_last) h
]
drop_last-IsPlain (c ∷ d ∷ s) h = (h.0, drop_last-IsPlain (d ∷ s) h.1)

replace_from-IsPlain :
    (old new : Text) (skip : ℕ) (s : Text)
    → IsPlain new
    → IsPlain s
    → IsPlain (replace_from old new skip s)
unfolding replace_from
replace_from-IsPlain old new zero [] n h = tt
replace_from-IsPlain old new (suc skip) [] n h = tt
replace_from-IsPlain old new (suc skip) (c ∷ s) n h = replace_from-IsPlain old new skip s n h.1
replace_from-IsPlain old new zero (c ∷ s) n h = elim (Option-cases (after_prefix old (c ∷ s))) [
  | inl absent ↦ rw (absent, replace_from) (h.0, replace_from-IsPlain old new 0 s n h.1)
  | inr (rest, found) ↦
      rw (found, replace_from)
        (All-append (λ c. is_special c ≡ false) new (replace_from old new (length old - 1) s) n
          (replace_from-IsPlain old new (length old - 1) s n h.1))
]

normalized-IsPlain : (metric : Text) → IsPlain (normalized metric)
unfolding normalized
normalized-IsPlain metric = replace_from-IsPlain (codes "_.") (codes ".") 0 _ dot-IsPlain (
    replace_from-IsPlain (codes "._") (codes ".") 0 _ dot-IsPlain (
      drop_last-IsPlain (drop_first (collapse (underscored metric))) (
        drop_first-IsPlain (collapse (underscored metric))
          (collapse-IsPlain (underscored metric) (underscored-IsPlain metric)))))

-- A normalised metric name has no white space and none of the characters , + * - / ( ) [ ] { }, and
-- neither has one with a prefix that has none of them.
pub normalize-IsPlain :
    (metric prefix : Text)
    → All (λ c. is_special c ≡ false) prefix
    → All (λ c. is_special c ≡ false) (normalize metric none)
      × All (λ c. is_special c ≡ false) (normalize metric (some prefix))
unfolding normalize
normalize-IsPlain metric prefix h = (
  normalized-IsPlain metric,
  All-append (λ c. is_special c ≡ false) prefix (b'.' ∷ normalized metric) h
      (dot-IsPlain.0, normalized-IsPlain metric),
)
