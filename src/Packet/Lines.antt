-- ===== src/Packet/Lines.antt =====
-- Python's str.splitlines, as Aggregator.submit_packets uses it.
use dd_agent.Prelude.{
  ℕ, ◌≡◌, refl, ap, List, [], ◌∷◌, ◌++◌, Bool, true, false, not, ◌==◌, ◌&&◌, ◌||◌, leb,
  if◌then◌else◌, keep, Bool-cases, inl, inr, ◌⊎◌,
}
use dd_agent.Prelude.Text.{Text}
use dd_agent.Packet.Split.{cons_first}
use dd_agent.Packet.Slice.{is_blank}

-- The characters other than line feed and carriage return at which a line ends: none in a byte string,
-- and in a Unicode string \x0b, \x0c, \x1c to \x1e, \x85, U+2028 and U+2029.
abbrev pub is_separator : Bool → ℕ → Bool
is_separator decoded c =
    decoded
    && ((leb 11 c && leb c 12) || (leb 28 c && leb c 30) || c == 133 || (leb 8232 c && leb c 8233))

-- The lines of a text, which is Unicode if `decoded`; `cr` says that a carriage return stands before it,
-- with which a line feed is one end of a line.
unfoldable pub lines : Bool → Bool → Text → List Text
lines decoded cr [] = []
lines decoded cr (c ∷ s) = elim (c == 10) [
  | true ↦ if cr then lines decoded false s else [] ∷ lines decoded false s
  | false ↦ elim (c == 13) [
    | true ↦ [] ∷ lines decoded true s
    | false ↦ elim (is_separator decoded c) [
      | true ↦ [] ∷ lines decoded false s
      | false ↦ cons_first c (lines decoded false s)
    ]
  ]
]

-- The lines that are not skipped.
abbrev pub packets_of : Bool → Text → List Text
packets_of decoded s = keep (λ l. not (is_blank decoded l)) (lines decoded false s)

keep-append : (p : Text → Bool) (xs ys : List Text) → keep p (xs ++ ys) ≡ keep p xs ++ keep p ys
keep-append p [] ys = refl
keep-append p (x ∷ xs) ys = elim (Bool-cases (p x)) [
  | inl kept ↦ rw kept (ap (◌∷◌ x) (keep-append p xs ys))
  | inr left ↦ rw left (keep-append p xs ys)
]

-- Between the lines of two texts stands at most an empty one.
abbrev Between : List Text → List Text → List Text → Type 0
Between whole xs ys = (whole ≡ xs ++ ys) ⊎ (whole ≡ xs ++ [] ∷ ys)

Between-cons :
    (l : Text) (whole xs ys : List Text) → Between whole xs ys → Between (l ∷ whole) (l ∷ xs) ys
Between-cons l whole xs ys (inl e) = inl (ap (◌∷◌ l) e)
Between-cons l whole xs ys (inr e) = inr (ap (◌∷◌ l) e)

Between-cons_first :
    (c : ℕ) (whole : List Text) (x : Text) (xs ys : List Text)
    → Between whole (x ∷ xs) ys
    → Between (cons_first c whole) (cons_first c (x ∷ xs)) ys
Between-cons_first c whole x xs ys (inl e) = inl (rw e)
Between-cons_first c whole x xs ys (inr e) = inr (rw e)

lines-ne_nil :
    (decoded : Bool) (c : ℕ) (s : Text)
    → (x : Text) × (xs : List Text) × (lines decoded false (c ∷ s) ≡ x ∷ xs)
unfolding lines
lines-ne_nil decoded c s = elim (Bool-cases (c == 10)) [
  | inl feed ↦ ([], lines decoded false s, rw (feed, lines))
  | inr plain ↦ elim (Bool-cases (c == 13)) [
    | inl return ↦ ([], lines decoded true s, rw (plain, lines) (rw return))
    | inr other ↦ elim (Bool-cases (is_separator decoded c)) [
      | inl break ↦ ([], lines decoded false s, rw (plain, lines) (rw other (rw break)))
      | inr inner ↦ first (lines decoded false s) (rw (plain, lines) (rw other (rw inner)))
    ]
  ]
]
  where
    first :
        (ls : List Text)
        → lines decoded false (c ∷ s) ≡ cons_first c ls
        → (x : Text) × (xs : List Text) × (lines decoded false (c ∷ s) ≡ x ∷ xs)
    first [] e = (c ∷ [], [], e)
    first (l ∷ ls) e = (c ∷ l, ls, e)

lines-Between :
    (decoded cr : Bool) (a b : Text)
    → Between (lines decoded cr (a ++ 10 ∷ b)) (lines decoded cr a) (lines decoded false b)
unfolding lines
lines-Between decoded true [] b = inl refl
lines-Between decoded false [] b = inr refl
lines-Between decoded cr (c ∷ s) b = elim (Bool-cases (c == 10)) [
  | inl feed ↦ rw (feed, lines) (after_feed cr (lines-Between decoded false s b))
  | inr plain ↦ elim (Bool-cases (c == 13)) [
    | inl return ↦
        rw (plain, lines)
          (rw return (
            Between-cons [] (lines decoded true (s ++ 10 ∷ b)) (lines decoded true s)
              (lines decoded false b) (lines-Between decoded true s b)))
    | inr other ↦ elim (Bool-cases (is_separator decoded c)) [
      | inl break ↦
          rw (plain, lines)
            (rw other (
              rw break (
                Between-cons [] (lines decoded false (s ++ 10 ∷ b)) (lines decoded false s)
                  (lines decoded false b) (lines-Between decoded false s b))))
      | inr inner ↦
          rw (plain, lines) (rw other (rw inner (within s (lines-Between decoded false s b))))
    ]
  ]
]
  where
    after_feed :
        (cr : Bool)
        → Between
            (lines decoded false (s ++ 10 ∷ b))
            (lines decoded false s)
            (lines decoded false b)
        → Between
            (if cr
              then lines decoded false (s ++ 10 ∷ b)
              else [] ∷ lines decoded false (s ++ 10 ∷ b))
            (if cr then lines decoded false s else [] ∷ lines decoded false s)
            (lines decoded false b)
    after_feed true h = h
    after_feed false h =
        Between-cons [] (lines decoded false (s ++ 10 ∷ b)) (lines decoded false s)
          (lines decoded false b) h

    within :
        (s : Text)
        → Between
            (lines decoded false (s ++ 10 ∷ b))
            (lines decoded false s)
            (lines decoded false b)
        → Between
            (cons_first c (lines decoded false (s ++ 10 ∷ b)))
            (cons_first c (lines decoded false s))
            (lines decoded false b)
    within [] h = inl refl
    within (d ∷ ds) h =
        let (x, xs, e) = lines-ne_nil decoded d ds in
        rw e (
          Between-cons_first c (lines decoded false (d ∷ ds ++ 10 ∷ b)) x xs (lines decoded false b)
            (rw e at h))

pub packets_of-append :
    (decoded : Bool) (a b : Text)
    → packets_of decoded (a ++ 10 ∷ b) ≡ packets_of decoded a ++ packets_of decoded b
packets_of-append decoded a b =
    let kept = λ (l : Text). not (is_blank decoded l) in
    elim (lines-Between decoded false a b) [
      | inl e ↦ rw e (keep-append kept (lines decoded false a) (lines decoded false b))
      | inr e ↦ rw e (keep-append kept (lines decoded false a) ([] ∷ lines decoded false b))
    ]
