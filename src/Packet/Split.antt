-- ===== src/Packet/Split.antt =====
-- Python's str.split by one character, its inverse, and the reading of integers.
use dd_agent.Prelude.{
  ℕ, zero, suc, ◌+◌, ◌*◌, ◌-◌, ◌≡◌, refl, ap, ◌∙◌, sym, Option, none, some, List, [], ◌∷◌, ◌++◌,
  Bool, false, if◌then◌else◌, ◌==◌, ==_iff, leb, ◌&&◌, ◌||◌, ℤ, pos, negsuc, Bool-cases, inl, inr,
}
use dd_agent.Prelude.Text.{Text}

-- the character stands in the text
unfoldable pub has : ℕ → Text → Bool
has c [] = false
has c (d ∷ ds) = d == c || has c ds

abbrev pub cons_first : ℕ → List Text → List Text
cons_first c [] = (c ∷ []) ∷ []
cons_first c (t ∷ ts) = (c ∷ t) ∷ ts

-- s.split(c)
unfoldable pub split : ℕ → Text → List Text
split c [] = [] ∷ []
split c (d ∷ ds) = let rest = split c ds in if d == c then [] ∷ rest else cons_first d rest

-- c.join(ts)
unfoldable pub join : ℕ → List Text → Text
join c [] = []
join c (t ∷ []) = t
join c (t ∷ u ∷ us) = t ++ c ∷ join c (u ∷ us)

-- s.split(c, 1), where it has two parts
unfoldable pub split_once : ℕ → Text → Option (Text × Text)
split_once c [] = none
split_once c (d ∷ ds) =
    if d == c
    then some ([], ds)
    else elim (split_once c ds) [ none ↦ none | some (l, r) ↦ some (d ∷ l, r) ]

abbrev pub is_digit : ℕ → Bool
is_digit c = leb b'0' c && leb c b'9'

unfoldable pub digits_value : Text → ℕ → Option ℕ
digits_value [] n = some n
digits_value (c ∷ cs) n =
    let rest = digits_value cs (n * 10 + (c - b'0')) in if is_digit c then rest else none

-- at least one digit
abbrev natural : Text → Option ℕ
natural [] = none
natural (c ∷ cs) = digits_value (c ∷ cs) 0

abbrev pub is_space : ℕ → Bool
is_space c = c == b' ' || (leb 9 c && leb c 13)

abbrev pub drop_spaces : Text → Text
drop_spaces [] = []
drop_spaces (c ∷ cs) = if is_space c then drop_spaces cs else c ∷ cs

abbrev add_unless_blank : ℕ → Text → Text
add_unless_blank d [] = if is_space d then [] else d ∷ []
add_unless_blank d (e ∷ es) = d ∷ e ∷ es

abbrev pub trim_right : Text → Text
trim_right [] = []
trim_right (c ∷ cs) = add_unless_blank c (trim_right cs)

abbrev plus : Option ℕ → Option ℤ
plus none = none
plus (some n) = some (pos n)

abbrev minus : Option ℕ → Option ℤ
minus none = none
minus (some zero) = some (pos 0)
minus (some (suc n)) = some (negsuc n)

abbrev signed : Text → Option ℤ
signed [] = none
signed (c ∷ cs) =
    if c == b'-'
    then minus (natural cs)
    else if c == b'+'
    then plus (natural cs)
    else plus (natural (c ∷ cs))

-- int(s): spaces around, a sign, digits; `none` is the ValueError
unfoldable pub int : Text → Option ℤ
unfolding digits_value
int s = signed (trim_right (drop_spaces s))

join-cons_first : (c d : ℕ) (ts : List Text) → join c (cons_first d ts) ≡ d ∷ join c ts
unfolding join
join-cons_first c d [] = refl
join-cons_first c d (t ∷ []) = refl
join-cons_first c d (t ∷ u ∷ us) = refl

pub split-ne_nil : (c : ℕ) (s : Text) → (t : Text) × (ts : List Text) × (split c s ≡ t ∷ ts)
unfolding split
split-ne_nil c [] = ([], [], refl)
split-ne_nil c (d ∷ ds) =
    let (t, ts, e) = split-ne_nil c ds in
    elim (Bool-cases (d == c)) [
      | inl here ↦ ([], split c ds, rw here)
      | inr other ↦ (d ∷ t, ts, rw (other, e))
    ]

-- Splitting loses nothing.
pub join-split : (c : ℕ) (s : Text) → join c (split c s) ≡ s
unfolding join split
join-split c [] = refl
join-split c (d ∷ ds) = elim (Bool-cases (d == c)) [
  | inr other ↦ rw (other, join-cons_first c d (split c ds), join-split c ds)
  | inl here ↦
      let (t, ts, e) = split-ne_nil c ds in
      rw here (rw e (λ i. sym ((==_iff d c).0 here) i ∷ (sym (ap (join c) e) ∙ join-split c ds) i))
]
