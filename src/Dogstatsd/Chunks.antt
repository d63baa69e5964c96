-- ===== src/Dogstatsd/Chunks.antt =====
-- util.py, chunks.
use dd_agent.Prelude.{
  ℕ, zero, suc, ◌+◌, ◌≤◌, ◌<◌, ◌≡◌, ◌∙◌, refl, ap, sym, Option, none, some, List, [], ◌∷◌, ◌++◌,
  Bool, true, false, length, All, arith, Bool-cases, inl, inr,
}

module _ {A : Type 0} where
  -- The loop that fills a chunk: the chunk, what is left, and whether the iterable has ended.
  unfoldable pub fill : ℕ → List A → List A × List A × Bool
  fill zero xs = ([], xs, false)
  fill (suc k) [] = ([], [], true)
  fill (suc k) (x ∷ xs) = let (chunk, rest, ended) = fill k xs in (x ∷ chunk, rest, ended)

  -- if count: yield chunk[:count]
  abbrev pub last_chunk : List A → List (List A)
  last_chunk [] = []
  last_chunk (x ∷ chunk) = (x ∷ chunk) ∷ []

  -- The chunks that are yielded, over a bound on their number; `none` if there are more.
  unfoldable pub chunks_within : ℕ → List A → ℕ → Option (List (List A))
  unfolding fill
  chunks_within zero xs n = none
  chunks_within (suc f) xs n =
      let (chunk, rest, ended) = fill n xs in
      let more = chunks_within f rest n in
      elim ended [
        | true ↦ some (last_chunk chunk)
        | false ↦ elim more [ none ↦ none | some cs ↦ some (chunk ∷ cs) ]
      ]

  -- One call more than there are elements is enough, unless chunk_size is 0.
  unfoldable pub chunks : List A → ℕ → Option (List (List A))
  unfolding chunks_within
  chunks xs n = chunks_within (suc (length xs)) xs n

  abbrev pub concat : List (List A) → List A
  concat [] = []
  concat (xs ∷ xss) = xs ++ concat xss

  -- A chunk has an element, and no more than n.
  abbrev pub IsChunk : ℕ → List A → Type 0
  IsChunk n c = (0 < length c) × (length c ≤ n)

  abbrev Fills : ℕ → List A → List A × List A × Bool → Type 0
  Fills n xs (chunk, rest, ended) =
      (chunk ++ rest ≡ xs)
      × (length chunk ≤ n)
      × (length chunk + length rest ≡ length xs)
      × (ended ≡ false → length chunk ≡ n)
      × (ended ≡ true → rest ≡ [])

  fill-Fills : (n : ℕ) (xs : List A) → Fills n xs (fill n xs)
  unfolding fill
  fill-Fills zero xs = (refl, omega arith, omega arith, (λ e. refl), (λ e. cc))
  fill-Fills (suc k) [] = (refl, omega arith, refl, (λ e. cc), (λ e. refl))
  fill-Fills (suc k) (x ∷ xs) =
      let (whole, short, sum, full, none_left) = fill-Fills k xs in
      (
        ap (◌∷◌ x) whole,
        omega (arith, short),
        omega (arith, sum),
        (λ e. ap suc (full e)),
        none_left,
      )

  last_chunk-IsChunk : (n : ℕ) (c : List A) → length c ≤ n → All (IsChunk n) (last_chunk c)
  last_chunk-IsChunk n [] h = tt
  last_chunk-IsChunk n (x ∷ c) h = ((omega arith, h), tt)

  concat-last_chunk : (c : List A) → concat (last_chunk c) ≡ c ++ []
  concat-last_chunk [] = refl
  concat-last_chunk (x ∷ c) = refl

  chunks_within-splits :
      (f n : ℕ) (xs : List A)
      → 0 < n
      → length xs < f
      → (cs : List (List A)) × (chunks_within f xs n ≡ some cs)
        × (concat cs ≡ xs)
        × All (IsChunk n) cs
  unfolding chunks_within
  chunks_within-splits zero n xs h l = absurd (omega arith)
  chunks_within-splits (suc f) n xs h l =
      let (whole, short, sum, full, none_left) = fill-Fills n xs in
      elim (Bool-cases (fill n xs).2) [
        | inl e ↦ (
          last_chunk (fill n xs).0,
          simp (e, chunks_within) refl,
          concat-last_chunk (fill n xs).0
              ∙ ap (λ r. (fill n xs).0 ++ r) (sym (none_left e))
              ∙ whole,
          last_chunk-IsChunk n (fill n xs).0 short,
        )
        | inr e ↦
            let size = full e in
            let (cs, more, joined, good) =
              chunks_within-splits f n (fill n xs).1 h (omega (arith, sum, size)) in
            (
              (fill n xs).0 ∷ cs,
              simp (e, more, chunks_within) refl,
              ap (λ r. (fill n xs).0 ++ r) joined ∙ whole,
              ((omega (arith, size), short), good),
            )
      ]

  -- With a chunk size above 0, chunks ends, and its chunks in their order are the elements of the
  -- iterable, none lost and none twice; each of them has an element and at most chunk_size.
  pub chunks-splits :
      (xs : List A) (n : ℕ)
      → 0 < n
      → (cs : List (List A)) × (chunks xs n ≡ some cs) × (concat cs ≡ xs) × All (IsChunk n) cs
  unfolding chunks
  chunks-splits xs n h = chunks_within-splits (suc (length xs)) n xs h (omega arith)
