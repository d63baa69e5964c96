-- ===== src/Tests/TailFile.antt =====
-- utils/tailfile.py: a log that grows, is truncated and is replaced.
use dd_agent.Prelude.{ℕ, ◌≡◌, ◌++◌, refl, some, List, [], ◌∷◌, true, false, length, arith}
use dd_agent.Prelude.Text.{Text, codes}
use dd_agent.TailFile.Reader.{File, new_tail, next, clean, lstrip, rstrip}
use dd_agent.TailFile.Lines.{lines_of}
use dd_agent.TailFile.Follow.{
  Change, appended, truncated, replaced, IsHistory, all_news, follow, first_lines, tail-follows,
}

abbrev log : File
log = record { inode = 7; content = codes "one\ntwo\n" }

abbrev changes : List Change
changes =
    appended (codes "three\nfo")
    ∷ appended (codes "ur\n")
    ∷ truncated (codes "five\n")
    ∷ replaced (record { inode = 8; content = codes "six\nseven\neight\n" })
    ∷ []

changes-IsHistory : IsHistory log changes
changes-IsHistory = (tt, (tt, (omega arith, ((λ e. absurd (omega (arith, e))), tt))))

-- A line that is not complete is given to the callback, and its rest as another line.
news_test :
    all_news (appended (codes "three\nfo") ∷ appended (codes "ur\n") ∷ [])
    ≡ codes "three" ∷ codes "fo" ∷ codes "ur" ∷ []
unfolding lines_of clean lstrip rstrip
news_test = refl

-- A sum in place of crc32, and a callback that always answers True.
abbrev crc : Text → ℕ
crc = length

tail-follows_example :
    (next crc (λ l. true) false (some log) (new_tail true)).0
      ++ follow crc
          (λ l. true)
          (next crc (λ l. true) false (some log) (new_tail true)).2
          log
          changes
    ≡ first_lines crc (λ l. true) true log ++ all_news changes
tail-follows_example = tail-follows crc (λ l. true) log true changes changes-IsHistory
