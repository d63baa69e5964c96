-- ===== src/TailFile/Reader.antt =====
-- utils/tailfile.py, class TailFile. The file that stands at the path is an argument of each call of
-- the generator, and does not change during the call; crc32 is a parameter, and so are the answers of
-- the callback.
use dd_agent.Prelude.{
  ℕ, zero, suc, ◌+◌, ◌==◌, Option, none, some, List, [], ◌∷◌, Bool, true, false, not, ◌&&◌, ◌||◌,
  leb, ltb, if◌then◌else◌, length,
}
use dd_agent.Prelude.Text.{Text}
use dd_agent.Packet.Slice.{take, drop}

pub record File : Type 0 where
  pub inode : ℕ
  pub content : Text

-- Where the generator goes on: it has not begun, or stands behind a yield with a position, or ended.
pub data Resume : Type 0 where
  begin : Bool → Resume
  behind : ℕ → Resume
  ended : Resume

pub record TailFile : Type 0 where
  pub is_open : Bool
  pub inode : Option ℕ
  pub size : ℕ
  pub crc : Option ℕ
  pub resume : Resume

unfoldable pub new_tail : Bool → TailFile
new_tail move_end = record {
  is_open = false;
  inode = none;
  size = 0;
  crc = none;
  resume = begin move_end;
}

abbrev pub crc_size : ℕ
crc_size = 16

-- a is not None and a differs from b
abbrev pub differs : Option ℕ → ℕ → Bool
differs none b = false
differs (some a) b = not (b == a)

-- readline: a line with its line feed, and what follows it
unfoldable pub readline : Text → Text × Text
readline [] = ([], [])
readline (c ∷ cs) =
    let (line, rest) = readline cs in if c == b'\n' then (c ∷ [], cs) else (c ∷ line, rest)

-- strip(chr(0)) and rstrip("\n"), each by the removal at an end
unfoldable pub lstrip : ℕ → Text → Text
lstrip b [] = []
lstrip b (c ∷ cs) = let rest = lstrip b cs in if c == b then rest else c ∷ cs

unfoldable pub rstrip : ℕ → Text → Text
rstrip b [] = []
rstrip b (c ∷ cs) = elim (rstrip b cs) [ [] ↦ if c == b then [] else c ∷ [] | d ∷ ds ↦ c ∷ d ∷ ds ]

-- what the callback is given of a line
unfoldable pub clean : Text → Text
unfolding lstrip rstrip
clean line = rstrip b'\n' (rstrip 0 (lstrip 0 line))

-- What the loop makes of a line, or of the end of the file, and of what it reads after the line.
unfoldable pub after_line : (Text → Bool) → Bool → Text → ℕ → List Text × ℕ → List Text × ℕ
unfolding clean
after_line answer line_by_line [] pos more = ([], pos)
after_line answer line_by_line (c ∷ cs) pos more =
    if line_by_line && answer (clean (c ∷ cs))
    then (clean (c ∷ cs) ∷ [], pos + length (c ∷ cs))
    else (clean (c ∷ cs) ∷ more.0, more.1)

module _ (crc32 : Text → ℕ) where
  abbrev pub crc_of : Text → Option ℕ
  crc_of content =
      if leb crc_size (length content) then some (crc32 (take crc_size content)) else none

  -- size >= CRC_SIZE and self._crc is not None and crc != self._crc
  abbrev pub is_modified : Option ℕ → Text → Bool
  is_modified crc content =
      leb crc_size (length content)
      && (elim crc [ none ↦ false | some c ↦ not (crc32 (take crc_size content) == c) ])

  -- The file is not the one that was open, or not the same text.
  unfoldable pub is_new : TailFile → File → Bool
  is_new t file =
      t.is_open
      && ((if differs t.inode file.inode
            then true
            else ltb 0 t.size && ltb (length file.content) t.size)
          || is_modified t.crc file.content)

  -- _open_file: the position and the state; False is no position.
  unfoldable pub open_file : Bool → Option ℕ → File → TailFile → ℕ × TailFile
  unfolding is_new
  open_file move_end pos file t =
      let afresh = is_new t file in
      let opened = record t {
        is_open = true;
        inode = some file.inode;
        size = length file.content;
        crc = crc_of file.content;
      } in
      (
        if afresh
            then 0
            else if move_end
            then length file.content
            else elim pos [ none ↦ 0 | some p ↦ p ],
        opened,
      )

  module _ (answer : Text → Bool) (line_by_line : Bool) where
    -- The loop of tail from a position to the next yield: the lines given to the callback and the
    -- position at which it stops. A line has a character, so the text bounds the calls of readline.
    unfoldable pub read_lines : ℕ → ℕ → Text → List Text × ℕ
    unfolding readline after_line
    read_lines zero pos rest = ([], pos)
    read_lines (suc fuel) pos rest =
        let (line, left) = readline rest in
        after_line answer line_by_line line pos (read_lines fuel (pos + length line) left)

    unfoldable pub read_to_yield : File → ℕ → TailFile → List Text × TailFile
    unfolding read_lines
    read_to_yield file pos t =
        let (lines, end) = read_lines (suc (length file.content)) pos (drop pos file.content) in
        (lines, record t { resume = behind end })

    -- next() of the generator with the file, or none, at the path; the Boolean is StopIteration.
    unfoldable pub next : Option File → TailFile → List Text × Bool × TailFile
    unfolding open_file read_to_yield
    next none t = ([], true, record t { is_open = false; resume = ended })
    next (some file) t = elim t.resume [
      | ended ↦ ([], true, t)
      | begin move_end ↦
          let (pos, opened) = open_file move_end none file t in
          let (lines, t') = read_to_yield file pos opened in (lines, false, t')
      | behind p ↦
          let (pos, opened) = open_file false (some p) file t in
          let (lines, t') = read_to_yield file pos opened in (lines, false, t')
    ]
