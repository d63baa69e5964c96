-- ===== src/Discovery/Image.antt =====
-- utils/service_discovery/abstract_config_store.py: AbstractConfigStore._get_image_ident.
use dd_agent.Prelude.{
  ℕ, ◌+◌, ◌≡◌, refl, ◌∙◌, List, [], ◌∷◌, ◌++◌, true, false, ◌==◌, ltb, if◌then◌else◌, arith,
  Bool-cases, inl, inr,
}
use dd_agent.Prelude.Text.{Text}
use dd_agent.Packet.Split.{has, split}

-- s.count(c)
unfoldable pub count : ℕ → Text → ℕ
count c [] = 0
count c (d ∷ s) = (if d == c then 1 else 0) + count c s

-- ts[-1], of a list that is not empty
abbrev pub last : List Text → Text
last [] = []
last (t ∷ []) = t
last (t ∷ u ∷ us) = last (u ∷ us)

-- ts[0] and ts[1]
abbrev pub first : List Text → Text
first [] = []
first (t ∷ ts) = t

abbrev pub second : List Text → Text
second [] = []
second (t ∷ ts) = first ts

unfoldable pub get_image_ident : Text → Text
unfolding count split
get_image_ident ident =
    if ltb 1 (count b':' ident)
    then last (split b'/' (second (split b':' ident)))
    else last (split b'/' (first (split b':' ident)))

count-append : (c : ℕ) (s t : Text) → count c (s ++ t) ≡ count c s + count c t
unfolding count
count-append c [] t = omega arith
count-append c (d ∷ s) t = ground (arith, count-append c s t)

count_absent : (c : ℕ) (s : Text) → has c s ≡ false → count c s ≡ 0
unfolding has count
count_absent c [] h = refl
count_absent c (d ∷ s) h = ground (arith, count_absent c s)

-- A text without the separator is the first part.
split-append : (c : ℕ) (s t : Text) → has c s ≡ false → split c (s ++ c ∷ t) ≡ s ∷ split c t
unfolding has split
split-append c [] t h = ground arith
split-append c (d ∷ s) t h = ground (arith, split-append c s t)

split_whole : (c : ℕ) (s : Text) → has c s ≡ false → split c s ≡ s ∷ []
unfolding has split
split_whole c [] h = refl
split_whole c (d ∷ s) h = ground (arith, split_whole c s)

-- The last part of a path is the name behind the last slash.
path_parts :
    (p n : Text)
    → has b'/' n ≡ false
    → (t u : Text) × (us : List Text) × (split b'/' (p ++ b'/' ∷ n) ≡ t ∷ u ∷ us)
      × (last (u ∷ us) ≡ n)
unfolding split
path_parts [] n h = ([], n, [], rw (split_whole b'/' n h) refl, refl)
path_parts (d ∷ p) n h =
    let (t, u, us, e, l) = path_parts p n h in
    elim (Bool-cases (d == b'/')) [
      | inl eq ↦ ([], t, u ∷ us, rw (eq, e) refl, l)
      | inr ne ↦ (d ∷ t, u, us, rw (ne, e) refl, l)
    ]

last-split : (p n : Text) → has b'/' n ≡ false → last (split b'/' (p ++ b'/' ∷ n)) ≡ n
last-split p n h = let (t, u, us, e, l) = path_parts p n h in rw e l

has-append : (c : ℕ) (s t : Text) → has c s ≡ false → has c t ≡ false → has c (s ++ t) ≡ false
unfolding has
has-append c [] t h k = k
has-append c (d ∷ s) t h k = ground (arith, has-append c s t)

-- The name of an image in a repository.
abbrev pub in_repository : Text → Text → Text
in_repository path name = path ++ b'/' ∷ name

abbrev pub tagged : Text → Text → Text
tagged image tag = image ++ b':' ∷ tag

-- registry:port/path, where `place` is the port and the path
abbrev pub on_registry : Text → Text → Text
on_registry registry place = registry ++ b':' ∷ place

-- The last part of what stands before the tag.
before_tag :
    (image tag : Text)
    → has b':' image ≡ false
    → has b':' tag ≡ false
    → get_image_ident (tagged image tag) ≡ last (split b'/' image)
unfolding get_image_ident count
before_tag image tag h k =
    let once : count b':' (tagged image tag) ≡ 1 = omega (
      arith,
      count-append b':' image (b':' ∷ tag),
      count_absent b':' image h,
      count_absent b':' tag k,
    ) in
    rw (once, split-append b':' image tag h) refl

behind_port :
    (registry image tag : Text)
    → has b':' registry ≡ false
    → has b':' image ≡ false
    → get_image_ident (on_registry registry (tagged image tag)) ≡ last (split b'/' image)
unfolding get_image_ident count
behind_port registry image tag h k =
    let more : ltb 1 (count b':' (on_registry registry (tagged image tag))) ≡ true = ground (
      arith,
      count-append b':' registry (b':' ∷ tagged image tag),
      count-append b':' image (b':' ∷ tag),
    ) in
    rw (more, split-append b':' registry (tagged image tag) h, split-append b':' image tag k) refl

-- The identifier of a tagged image is the name behind the last slash, on the default registry and on
-- one with a port. On a registry with a port, an image without a tag gets the last part of the
-- registry's name.
pub get_image_ident-names :
    (registry path name tag : Text)
    → has b':' registry ≡ false
    → has b':' path ≡ false
    → has b':' name ≡ false
    → has b'/' name ≡ false
    → has b':' tag ≡ false
    → (get_image_ident (tagged (in_repository path name) tag) ≡ name)
      × (get_image_ident (on_registry registry (tagged (in_repository path name) tag)) ≡ name)
      × (get_image_ident (on_registry registry (in_repository path name))
          ≡ last (split b'/' registry))
unfolding has
get_image_ident-names registry path name tag r p n s t =
    let whole : has b':' (in_repository path name) ≡ false =
      has-append b':' path (b'/' ∷ name) p n in
    (
      before_tag (in_repository path name) tag whole t ∙ last-split path name s,
      behind_port registry (in_repository path name) tag r whole ∙ last-split path name s,
      before_tag registry (in_repository path name) r whole,
    )
