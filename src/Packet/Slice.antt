-- ===== src/Packet/Slice.antt =====
-- Python's operations on texts that the event and service check packets use.
use dd_agent.Prelude.{
  ℕ, zero, suc, ◌-◌, Option, none, some, [], ◌∷◌, ◌++◌, ℤ, pos, negsuc, Bool, true, ltb, ◌&&◌, ◌||◌,
  length, leb, if◌then◌else◌, ◌==◌, min,
}
use dd_agent.Prelude.Text.{Text}
use dd_agent.Packet.Split.{is_space}

abbrev pub drop : ℕ → Text → Text
drop zero s = s
drop (suc n) [] = []
drop (suc n) (c ∷ s) = drop n s

abbrev pub take : ℕ → Text → Text
take zero s = []
take (suc n) [] = []
take (suc n) (c ∷ s) = c ∷ take n s

-- A bound of a slice counts from the end where it is negative, and stays within the text.
abbrev pub bound : ℤ → Text → ℕ
bound (pos n) s = min n (length s)
bound (negsuc n) s = length s - suc n

-- s[a:b], s[:b] and s[a:]
unfoldable pub slice : ℤ → ℤ → Text → Text
slice a b s = take (bound b s - bound a s) (drop (bound a s) s)

unfoldable pub slice_to : ℤ → Text → Text
slice_to b s = take (bound b s) s

unfoldable pub slice_from : ℤ → Text → Text
slice_from a s = drop (bound a s) s

-- s.startswith(p), with what follows
unfoldable pub after_prefix : Text → Text → Option Text
after_prefix [] s = some s
after_prefix (p ∷ ps) [] = none
after_prefix (p ∷ ps) (c ∷ s) = if p == c then after_prefix ps s else none

-- s.replace(old, new): `skip` characters belong to an occurrence that has been replaced.
unfoldable pub replace_from : Text → Text → ℕ → Text → Text
unfolding after_prefix
replace_from old new skip [] = []
replace_from old new (suc skip) (c ∷ s) = replace_from old new skip s
replace_from old new zero (c ∷ s) = elim (after_prefix old (c ∷ s)) [
  | none ↦ c ∷ replace_from old new 0 s
  | some rest ↦ new ++ replace_from old new (length old - 1) s
]

abbrev pub replace : Text → Text → Text → Text
replace old new s = replace_from old new 0 s

-- s.rsplit(d, 1), where d stands in s
unfoldable pub rsplit_once : Text → Text → Option (Text × Text)
unfolding after_prefix
rsplit_once d [] = none
rsplit_once d (c ∷ s) = elim (rsplit_once d s) [
  | some (l, r) ↦ some (c ∷ l, r)
  | none ↦ elim (after_prefix d (c ∷ s)) [ some r ↦ some ([], r) | none ↦ none ]
]

-- every character is one of ASCII
abbrev pub is_ascii : Text → Bool
is_ascii [] = true
is_ascii (c ∷ s) = ltb c 128 && is_ascii s

-- The conversion of a byte string to Unicode, or a UnicodeDecodeError; `decoded` says that the packets
-- were Unicode before.
abbrev pub as_unicode : Bool → Text → Option Text
as_unicode decoded s = if decoded || is_ascii s then some s else none

-- The spaces of Unicode that are no spaces in a byte string.
abbrev pub is_unicode_space : ℕ → Bool
is_unicode_space c =
    (leb 28 c && leb c 31)
    || c == 133
    || c == 160
    || c == 5760
    || c == 6158
    || (leb 8192 c && leb c 8202)
    || (leb 8232 c && leb c 8233)
    || c == 8239
    || c == 8287
    || c == 12288

-- not s.strip()
abbrev pub is_blank : Bool → Text → Bool
is_blank decoded [] = true
is_blank decoded (c ∷ s) = (is_space c || (decoded && is_unicode_space c)) && is_blank decoded s
