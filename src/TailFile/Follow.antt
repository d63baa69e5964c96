-- ===== src/TailFile/Follow.antt =====
-- utils/tailfile.py, class TailFile: a file that is read while it grows, is truncated or is replaced.
use mathlib.Core.List.{append-nil}
use dd_agent.Prelude.{
  ℕ, zero, suc, ◌+◌, ◌≤◌, ◌<◌, ◌≡◌, ◌≢◌, ◌∙◌, ◌&&◌, refl, ap, sym, some, List, [], ◌∷◌, ◌++◌, map,
  Bool, true, false, if◌then◌else◌, length, length-append, arith, Bool-cases, inl, inr, leb,
}
use dd_agent.Prelude.Text.{Text}
use dd_agent.Packet.Slice.{take, drop}
use dd_agent.TailFile.Reader.{
  File, TailFile, behind, new_tail, crc_of, is_modified, is_new, clean, open_file, read_lines,
  read_to_yield, next,
}
use dd_agent.TailFile.Lines.{lines_of, read_lines-lines_of}

-- What happens to the file between two calls of the generator.
pub data Change : Type 0 where
  appended : Text → Change
  truncated : Text → Change
  replaced : File → Change

abbrev pub changed : Change → File → File
changed (appended d) f = record f { content = f.content ++ d }
changed (truncated d) f = record f { content = d }
changed (replaced g) f = g

-- A truncation leaves less than there was, and another file has another inode.
abbrev pub IsChange : File → Change → Type 0
IsChange f (appended d) = Unit
IsChange f (truncated d) = length d < length f.content
IsChange f (replaced g) = g.inode ≢ f.inode

abbrev pub IsHistory : File → List Change → Type 0
IsHistory f [] = Unit
IsHistory f (c ∷ cs) = IsChange f c × IsHistory (changed c f) cs

-- The text that a change brings.
abbrev pub news : Change → Text
news (appended d) = d
news (truncated d) = d
news (replaced g) = g.content

abbrev pub all_news : List Change → List Text
all_news [] = []
all_news (c ∷ cs) = map clean (lines_of (news c)) ++ all_news cs

take-append : (n : ℕ) (cs ds : Text) → n ≤ length cs → take n (cs ++ ds) ≡ take n cs
take-append zero cs ds h = refl
take-append (suc n) [] ds h = absurd (omega arith)
take-append (suc n) (c ∷ cs) ds h = ap (◌∷◌ c) (take-append n cs ds (omega arith))

drop-append : (cs ds : Text) → drop (length cs) (cs ++ ds) ≡ ds
drop-append [] ds = refl
drop-append (c ∷ cs) ds = drop-append cs ds

drop-length : (n : ℕ) (cs : Text) → length (drop n cs) ≤ length cs
drop-length zero cs = omega arith
drop-length (suc n) [] = omega arith
drop-length (suc n) (c ∷ cs) = omega (arith, drop-length n cs)

and_false : (b : Bool) → (b && false) ≡ false
and_false true = refl
and_false false = refl

module _ (crc32 : Text → ℕ) (answer : Text → Bool) where
  -- The generator has read the file and stands at its end.
  abbrev followed : File → TailFile → TailFile
  followed f t = record t {
    is_open = true;
    inode = some f.inode;
    size = length f.content;
    crc = crc_of crc32 f.content;
    resume = behind (length f.content);
  }

  -- the calls of the generator after each change, without line_by_line
  unfoldable pub follow : TailFile → File → List Change → List Text
  unfolding next
  follow t f [] = []
  follow t f (c ∷ cs) =
      let (lines, _, t') = next crc32 answer false (some (changed c f)) t in
      lines ++ follow t' (changed c f) cs

  is_modified_append : (cs ds : Text) → is_modified crc32 (crc_of crc32 cs) (cs ++ ds) ≡ false
  is_modified_append cs ds = elim (Bool-cases (leb 16 (length cs))) [
    | inl long ↦ rw long (
        rw (take-append 16 cs ds (ground arith))
          (ap (λ b. leb 16 (length (cs ++ ds)) && b) (ground arith) ∙ and_false _))
    | inr short ↦ rw short (and_false _)
  ]

  read_to_yield_lem :
      (f : File) (pos : ℕ) (t : TailFile) (rest : Text)
      → drop pos f.content ≡ rest
      → read_to_yield crc32 answer false f pos t
        ≡ (map clean (lines_of rest), record t { resume = behind (pos + length rest) })
  unfolding read_to_yield
  read_to_yield_lem f pos t rest e =
      ap (λ p. (p.0, record t { resume = behind p.1 }))
        (ap (read_lines crc32 answer false (suc (length f.content)) pos) e
          ∙ read_lines-lines_of crc32 answer (suc (length f.content)) pos rest
              (omega (arith, drop-length pos f.content, ap length e)))

  -- Where the next call begins to read after a change, and what it finds there.
  open_appended :
      (f : File) (d : Text) (t : TailFile)
      → (open_file crc32 false (some (length f.content)) (changed (appended d) f) (followed f t)).0
        ≡ length f.content
  unfolding open_file is_new
  open_appended f d t =
      rw (is_modified_append f.content d) (ground (arith, length-append f.content d))

  open_truncated :
      (f : File) (d : Text) (t : TailFile)
      → length d < length f.content
      → (open_file crc32 false (some (length f.content)) (changed (truncated d) f) (followed f t)).0
        ≡ 0
  unfolding open_file is_new
  open_truncated f d t h = ground arith

  open_replaced :
      (f g : File) (t : TailFile)
      → g.inode ≢ f.inode
      → (open_file crc32 false (some (length f.content)) g (followed f t)).0 ≡ 0
  unfolding open_file is_new
  open_replaced f g t h = ground arith

  -- A call that begins to read at a position gives the lines from there on, and follows the file.
  next_lem :
      (f f' : File) (t : TailFile) (pos : ℕ) (rest : Text)
      → (open_file crc32 false (some (length f.content)) f' (followed f t)).0 ≡ pos
      → drop pos f'.content ≡ rest
      → pos + length rest ≡ length f'.content
      → next crc32 answer false (some f') (followed f t)
        ≡ (map clean (lines_of rest), false, followed f' t)
  unfolding next open_file
  next_lem f f' t pos rest begins left end =
      ap (λ p. (p.0, false, p.1))
        (ap (λ n. read_to_yield crc32 answer false f' n (followed f' t)) begins
          ∙ read_to_yield_lem f' pos (followed f' t) rest left
          ∙ ap (λ n. (map clean (lines_of rest), record (followed f' t) { resume = behind n })) end)

  next-changed :
      (f : File) (c : Change) (t : TailFile)
      → IsChange f c
      → next crc32 answer false (some (changed c f)) (followed f t)
        ≡ (map clean (lines_of (news c)), false, followed (changed c f) t)
  next-changed f (appended d) t h =
      next_lem f (changed (appended d) f) t (length f.content) d (open_appended f d t)
        (drop-append f.content d) (omega (arith, length-append f.content d))
  next-changed f (truncated d) t h =
      next_lem f (changed (truncated d) f) t 0 d (open_truncated f d t h) refl (omega arith)
  next-changed f (replaced g) t h =
      next_lem f g t 0 g.content (open_replaced f g t h) refl (omega arith)

  follow-news :
      (f : File) (t : TailFile) (cs : List Change)
      → IsHistory f cs
      → follow (followed f t) f cs ≡ all_news cs
  unfolding follow
  follow-news f t [] h = refl
  follow-news f t (c ∷ cs) h =
      ap (λ p. p.0 ++ follow p.2 (changed c f) cs) (next-changed f c t h.0)
      ∙ ap (λ ls. map clean (lines_of (news c)) ++ ls) (follow-news (changed c f) t cs h.1)

  abbrev pub first_lines : Bool → File → List Text
  first_lines move_end f = if move_end then [] else map clean (lines_of f.content)

  next_first :
      (f : File) (move_end : Bool)
      → next crc32 answer false (some f) (new_tail move_end)
        ≡ (first_lines move_end f, false, followed f (new_tail move_end))
  unfolding next open_file new_tail is_new lines_of
  next_first f true =
      ap (λ p. (p.0, false, p.1))
        (read_to_yield_lem f (length f.content) (followed f (new_tail true)) []
            (ap (drop (length f.content)) (sym (append-nil f.content)) ∙ drop-append f.content [])
          ∙ ap (λ n. ([], record (followed f (new_tail true)) { resume = behind n })) (omega arith))
  next_first f false =
      ap (λ p. (p.0, false, p.1))
        (read_to_yield_lem f 0 (followed f (new_tail false)) f.content refl
          ∙ ap
              (λ n. (
                map clean (lines_of f.content),
                record (followed f (new_tail false)) { resume = behind n },
              ))
              (omega arith))

  -- With line_by_line false, from the first call on, which gives the lines of the file or, with
  -- move_end, none, the calls after any history of appended texts, truncations and replacements give the callback the lines of what
  -- each change has brought, cleaned, in their order: none lost and none twice. A truncation is one that
  -- leaves less than there was, and a call follows each change.
  pub tail-follows :
      (f : File) (move_end : Bool) (cs : List Change)
      → IsHistory f cs
      → (next crc32 answer false (some f) (new_tail move_end)).0
          ++ follow (next crc32 answer false (some f) (new_tail move_end)).2 f cs
        ≡ first_lines move_end f ++ all_news cs
  tail-follows f move_end cs h =
      ap (λ p. p.0 ++ follow p.2 f cs) (next_first f move_end)
      ∙ ap (λ ls. first_lines move_end f ++ ls) (follow-news f (new_tail move_end) cs h)
