-- ===== src/TailFile/Lines.antt =====
-- utils/tailfile.py, TailFile.tail: the lines that one call of the generator reads.
use dd_agent.Prelude.{
  ℕ, zero, suc, ◌+◌, ◌≤◌, ◌<◌, ◌==◌, ◌≡◌, ◌∙◌, refl, ap, sym, List, [], ◌∷◌, map, Bool, false,
  if◌then◌else◌, length, arith, Bool-cases, inl, inr,
}
use dd_agent.Prelude.Text.{Text}
use dd_agent.TailFile.Reader.{readline, clean, after_line, read_lines}

abbrev before : ℕ → List Text → List Text
before c [] = (c ∷ []) ∷ []
before c (l ∷ ls) = (c ∷ l) ∷ ls

-- The lines of a text, each with its line feed, which the last one may lack.
unfoldable pub lines_of : Text → List Text
lines_of [] = []
lines_of (c ∷ cs) = if c == b'\n' then (c ∷ []) ∷ lines_of cs else before c (lines_of cs)

-- readline takes the first line, and leaves what the others are.
readline-lines_of :
    (c : ℕ) (cs : Text) → lines_of (c ∷ cs) ≡ (readline (c ∷ cs)).0 ∷ lines_of (readline (c ∷ cs)).1
unfolding readline lines_of
readline-lines_of c [] = elim (Bool-cases (c == b'\n')) [
  | inl feed ↦ rw feed refl
  | inr other ↦ rw other refl
]
readline-lines_of c (d ∷ ds) = elim (Bool-cases (c == b'\n')) [
  | inl feed ↦ rw feed refl
  | inr other ↦ rw other (ap (before c) (readline-lines_of d ds))
]

readline-length : (cs : Text) → length (readline cs).0 + length (readline cs).1 ≡ length cs
unfolding readline
readline-length [] = refl
readline-length (c ∷ cs) = elim (Bool-cases (c == b'\n')) [
  | inl feed ↦ rw feed (omega arith)
  | inr other ↦ rw other (omega (arith, readline-length cs))
]

readline_shorter : (c : ℕ) (cs : Text) → length (readline (c ∷ cs)).1 ≤ length cs
unfolding readline
readline_shorter c cs = elim (Bool-cases (c == b'\n')) [
  | inl feed ↦ rw feed (omega arith)
  | inr other ↦ rw other (omega (arith, readline-length cs))
]

readline_starts : (c : ℕ) (cs : Text) → (ls : Text) × ((readline (c ∷ cs)).0 ≡ c ∷ ls)
unfolding readline
readline_starts c cs = elim (Bool-cases (c == b'\n')) [
  | inl feed ↦ ([], rw feed refl)
  | inr other ↦ ((readline cs).0, rw other refl)
]

after_line_lem :
    (answer : Text → Bool) (line : Text) (c pos : ℕ) (ls : Text) (more : List Text × ℕ)
    → line ≡ c ∷ ls
    → after_line answer false line pos more ≡ (clean line ∷ more.0, more.1)
unfolding after_line
after_line_lem answer [] c pos ls more e = cc
after_line_lem answer (d ∷ ds) c pos ls more e = refl

-- The loop gives the callback the lines of the text, cleaned, and stops behind it.
pub read_lines-lines_of :
    (crc32 : Text → ℕ) (answer : Text → Bool) (fuel pos : ℕ) (rest : Text)
    → length rest < fuel
    → read_lines crc32 answer false fuel pos rest ≡ (map clean (lines_of rest), pos + length rest)
unfolding read_lines lines_of after_line
read_lines-lines_of crc32 answer zero pos rest h = absurd (omega arith)
read_lines-lines_of crc32 answer (suc fuel) pos [] h = ap (λ n. ([], n)) (omega arith)
read_lines-lines_of crc32 answer (suc fuel) pos (c ∷ cs) h =
    let line = (readline (c ∷ cs)).0 in
    let left = (readline (c ∷ cs)).1 in
    let (ls, starts) = readline_starts c cs in
    let end : pos + length line + length left ≡ pos + length (c ∷ cs) =
      omega (arith, readline-length (c ∷ cs)) in
    after_line_lem answer line c pos ls
      (read_lines crc32 answer false fuel (pos + length line) left) starts
    ∙ ap (λ p. (clean line ∷ p.0, p.1))
        (read_lines-lines_of crc32 answer fuel (pos + length line) left
          (omega (arith, readline_shorter c cs)))
    ∙ ap (λ n. (clean line ∷ map clean (lines_of left), n)) end
    ∙ ap (λ ls. (map clean ls, pos + length (c ∷ cs))) (sym (readline-lines_of c cs))
