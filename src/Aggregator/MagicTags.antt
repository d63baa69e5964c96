-- ===== src/Aggregator/MagicTags.antt =====
-- aggregator.py, Aggregator._extract_magic_tags.
use mathlib.Core.Logic.{ite, if_pos, if_neg}
use mathlib.Core.List.{append_assoc}
use dd_agent.Prelude.{
  ◌≡◌, refl, sym, ap, ◌∙◌, Option, none, some, List, [], ◌∷◌, ◌++◌, Bool, true, false, not, ◌||◌,
  ◌==◌, if◌then◌else◌, keep, All, All-append, Bool-cases, List-cases, Option-cases, inl, inr, arith,
}
use dd_agent.Prelude.Text.{Text, Text-discrete, codes}

-- tag.startswith(prefix), with what follows the prefix
unfoldable pub strip_prefix : Text → Text → Option Text
strip_prefix [] cs = some cs
strip_prefix (p ∷ ps) [] = none
strip_prefix (p ∷ ps) (c ∷ cs) = if p == c then strip_prefix ps cs else none

-- The loop over the tags: the host, the device and tags_to_remove.
unfoldable pub scan : List Text → Option Text → Option Text → Option Text × Option Text × List Text
unfolding strip_prefix
scan [] host device = (host, device, [])
scan (tag ∷ tags) host device = elim (strip_prefix (codes "host:") tag) [
  | some h ↦
      let (host', device', removed) = scan tags (some h) device in (host', device', tag ∷ removed)
  | none ↦ elim (strip_prefix (codes "device:") tag) [
    | some d ↦
        let (host', device', removed) = scan tags host (some d) in (host', device', tag ∷ removed)
    | none ↦ scan tags host device
  ]
]

-- tags.remove(tag): the first occurrence, or ValueError
unfoldable pub remove : Text → List Text → Option (List Text)
unfolding Text-discrete
remove tag [] = none
remove tag (u ∷ us) =
    ite (Text-discrete u tag) (some us)
      (elim (remove tag us) [ none ↦ none | some us' ↦ some (u ∷ us') ])

-- the loop over tags_to_remove
unfoldable pub remove_all : List Text → List Text → Option (List Text)
unfolding remove
remove_all [] tags = some tags
remove_all (tag ∷ removed) tags = elim (remove tag tags) [
  | none ↦ none
  | some tags' ↦ remove_all removed tags'
]

-- tuple(tags) or None
abbrev pub or_none : List Text → Option (List Text)
or_none [] = none
or_none (t ∷ ts) = some (t ∷ ts)

abbrev pub with_rest :
    Option Text
    → Option Text
    → Option (List Text)
    → Option (Option Text × Option Text × Option (List Text))
with_rest host device none = none
with_rest host device (some left) = some (host, device, or_none left)

-- hostname, device_name, tags; `none` is the ValueError
unfoldable pub extract_magic_tags :
    Option (List Text) → Option (Option Text × Option Text × Option (List Text))
unfolding scan remove_all
extract_magic_tags none = some (none, none, none)
extract_magic_tags (some tags) =
    let (host, device, removed) = scan tags none none in
    elim removed [
      | [] ↦ some (host, device, some tags)
      | r ∷ rs ↦ with_rest host device (remove_all (r ∷ rs) tags)
    ]

-- The value of the last tag with the prefix.
unfoldable pub last_with : Text → List Text → Option Text → Option Text
unfolding strip_prefix
last_with prefix [] found = found
last_with prefix (tag ∷ tags) found = elim (strip_prefix prefix tag) [
  | none ↦ last_with prefix tags found
  | some v ↦ last_with prefix tags (some v)
]

abbrev is_there {ℓ} : {A : Type ℓ} → Option A → Bool
is_there none = false
is_there (some a) = true

unfoldable pub is_magic : Text → Bool
unfolding strip_prefix
is_magic tag =
    is_there (strip_prefix (codes "host:") tag) || is_there (strip_prefix (codes "device:") tag)

-- What the method is to compute: the last host, the last device, and the tags that are neither.
abbrev pub magic_of : List Text → Option Text × Option Text × Option (List Text)
magic_of tags = (
  last_with (codes "host:") tags none,
  last_with (codes "device:") tags none,
  elim (keep is_magic tags) [
    | [] ↦ some tags
    | _ ∷ _ ↦ or_none (keep (λ t. not (is_magic t)) tags)
  ],
)

-- No tag has both prefixes.
no_device :
    (tag h : Text)
    → strip_prefix (codes "host:") tag ≡ some h
    → strip_prefix (codes "device:") tag ≡ none
unfolding strip_prefix
no_device [] h e = refl
no_device (c ∷ cs) h e = ground arith

scan_lem :
    (tags : List Text) (host device : Option Text)
    → scan tags host device ≡ (
      last_with (codes "host:") tags host,
      last_with (codes "device:") tags device,
      keep is_magic tags,
    )
unfolding scan last_with is_magic
scan_lem [] host device = refl
scan_lem (tag ∷ tags) host device = elim (Option-cases (strip_prefix (codes "host:") tag)) [
  | inr (h, e) ↦
      rw (e, scan, last_with) (rw (no_device tag h e) (rw (scan_lem tags (some h) device) refl))
  | inl n ↦ elim (Option-cases (strip_prefix (codes "device:") tag)) [
    | inr (d, e) ↦ rw (n, scan, last_with) (rw e (rw (scan_lem tags host (some d)) refl))
    | inl none_either ↦ rw (n, scan, last_with) (rw none_either (scan_lem tags host device))
  ]
]

abbrev NotMagic : Text → Type 0
NotMagic tag = is_magic tag ≡ false

not_both {ℓ} : {A : Type ℓ} → true ≡ false → A
not_both e = cc

remove-middle :
    (before : List Text) (tag : Text) (after : List Text)
    → All NotMagic before
    → is_magic tag ≡ true
    → remove tag (before ++ tag ∷ after) ≡ some (before ++ after)
unfolding remove
remove-middle [] tag after h m = if_pos (Text-discrete tag tag) refl _ _
remove-middle (u ∷ us) tag after h m =
    if_neg (Text-discrete u tag) (λ e. not_both (sym m ∙ ap is_magic (sym e) ∙ h.0)) _ _
    ∙ rw (remove-middle us tag after h.1 m) refl

remove_all-keep :
    (before tags : List Text)
    → All NotMagic before
    → remove_all (keep is_magic tags) (before ++ tags)
      ≡ some (before ++ keep (λ t. not (is_magic t)) tags)
unfolding remove_all
remove_all-keep before [] h = refl
remove_all-keep before (tag ∷ tags) h = elim (Bool-cases (is_magic tag)) [
  | inl m ↦
      rw m (rw (remove-middle before tag tags h m, remove_all) (remove_all-keep before tags h))
  | inr n ↦ rw n (
      ap (remove_all (keep is_magic tags)) (sym (append_assoc before (tag ∷ []) tags))
      ∙ remove_all-keep (before ++ tag ∷ []) tags (All-append NotMagic before (tag ∷ []) h (n, tt))
      ∙ ap some (append_assoc before (tag ∷ []) _))
]

-- On any tags, the loops compute what magic_of says: the value of the last host tag and of the
-- last device tag, and the other tags in their order, or None if there are no others; the removal
-- of a tag never raises a ValueError.
pub extract_magic_tags-magic_of :
    (tags : List Text) → extract_magic_tags (some tags) ≡ some (magic_of tags)
unfolding extract_magic_tags
extract_magic_tags-magic_of tags = elim (List-cases (keep is_magic tags)) [
  | inl e ↦
      rw (scan_lem tags none none, extract_magic_tags)
        (rw e (ap (λ p. some (p.0, p.1, some tags)) (scan_lem tags none none)))
  | inr (r, rs, e) ↦
      rw (scan_lem tags none none, extract_magic_tags)
        (rw e (
          ap (with_rest _ _) (ap (λ k. remove_all k tags) (sym e) ∙ remove_all-keep [] tags tt)
          ∙ ap (λ p. some (p.0, p.1, or_none (keep (λ t. not (is_magic t)) tags)))
              (scan_lem tags none none)))
]
