-- ===== src/Packet/Lengths.antt =====
-- aggregator.py, parse_event_packet: the title and the text are taken by their lengths.
use mathlib.Core.List.{append_assoc}
use dd_agent.Prelude.{
  ℕ, suc, ◌+◌, ◌-◌, ◌≡◌, refl, ap, ◌∙◌, Option, none, some, List, [], ◌∷◌, ◌++◌, pos, ◌+ℤ◌, Bool,
  length, length-append, arith,
}
use dd_agent.Prelude.Text.{Text}
use dd_agent.Packet.Split.{split}
use dd_agent.Packet.Slice.{drop, take, bound, slice, slice_to, slice_from}
use dd_agent.Packet.Event.{ParsedEvent, event_at, behind_first, event_parts, unescape_event_text}

take-append : (a b : Text) → take (length a) (a ++ b) ≡ a
take-append [] b = refl
take-append (c ∷ a) b = ap (◌∷◌ c) (take-append a b)

drop-append : (a b : Text) → drop (length a) (a ++ b) ≡ b
drop-append [] b = refl
drop-append (c ∷ a) b = drop-append a b

bound-append : (a b : Text) (n : ℕ) → n ≡ length a → bound (pos n) (a ++ b) ≡ length a
bound-append a b n e = omega (arith, length-append {0} a b)

slice_to-append : (a b : Text) → slice_to (pos (length a)) (a ++ b) ≡ a
unfolding slice_to
slice_to-append a b = rw (bound-append a b (length a) refl) (take-append a b)

slice_from-append : (a b : Text) (n : ℕ) → n ≡ length a → slice_from (pos n) (a ++ b) ≡ b
unfolding slice_from
slice_from-append a b n e = rw (bound-append a b n e) (drop-append a b)

add_pos : (n k : ℕ) → pos n +ℤ pos k ≡ pos (n + k)
unfolding ◌+ℤ◌
add_pos n k = ground arith

drop-prefix : (a b : Text) (n : ℕ) → n ≡ length a → drop n (a ++ b) ≡ b
drop-prefix a b n e = rw e (drop-append a b)

take-prefix : (a b : Text) (n : ℕ) → n ≡ length a → take n (a ++ b) ≡ a
take-prefix a b n e = rw e (take-append a b)

drop-behind : (a b : Text) (c n : ℕ) → n ≡ suc (length a) → drop n (a ++ c ∷ b) ≡ b
drop-behind [] b c n e = rw e
drop-behind (d ∷ a) b c n e = rw e (drop-behind a b c (suc (length a)) refl)

bound_within : (s : Text) (n k : ℕ) → length s ≡ n + k → bound (pos n) s ≡ n
bound_within s n k e = omega (arith, e)

-- the text behind the title and the character between them
slice-middle :
    (title text rest : Text) (c n k : ℕ)
    → n ≡ length title + 1
    → k ≡ length title + length text + 1
    → slice (pos n) (pos k) (title ++ c ∷ (text ++ rest)) ≡ text
unfolding slice
slice-middle title text rest c n k d e =
    let long : length (title ++ c ∷ (text ++ rest)) ≡ k + length rest =
      omega (arith, length-append {0} title (c ∷ (text ++ rest)), length-append {0} text rest) in
    let s = title ++ c ∷ (text ++ rest) in
    rw
      (
        bound_within s n (length text + length rest) (omega (arith, long)),
        bound_within s k (length rest) long,
      )
      (rw (drop-behind title (text ++ rest) c n (omega arith))
        (take-prefix text rest (k - n) (omega arith)))

abbrev pub plain_event : Text → Text → ParsedEvent
plain_event title text = record {
  title = title;
  text = unescape_event_text text;
  alert_type = none;
  aggregation_key = none;
  source_type_name = none;
  date_happened = none;
  priority = none;
  hostname = none;
  tags = none;
}

-- What is left behind the title and the text.
abbrev pub rest_of : Option Text → Text
rest_of none = []
rest_of (some meta) = b'|' ∷ meta

abbrev pub parts_of : Option Text → List Text
parts_of none = []
parts_of (some meta) = split b'|' meta

parts_of_lem :
    (decoded : Bool) (meta : Option Text) (e : ParsedEvent)
    → event_parts decoded (behind_first (split b'|' (rest_of meta))) e
      ≡ event_parts decoded (parts_of meta) e
unfolding split
parts_of_lem decoded none e = refl
parts_of_lem decoded (some meta) e = refl

-- The text behind the title and the text.
slice_from-rest :
    (title text rest : Text) (c k : ℕ)
    → k ≡ length title + length text + 1
    → slice_from (pos k) (title ++ c ∷ (text ++ rest)) ≡ rest
unfolding slice_from
slice_from-rest title text rest c k e =
    rw
      (bound_within (title ++ c ∷ (text ++ rest)) k (length rest)
        (omega (arith, length-append {0} title (c ∷ (text ++ rest)), length-append {0} text rest)))
      (drop_both k e)
  where
    drop_both :
        (k : ℕ) → k ≡ length title + length text + 1 → drop k (title ++ c ∷ (text ++ rest)) ≡ rest
    drop_both k e = rw (← append_assoc title (c ∷ text) rest) (
        drop-prefix (title ++ c ∷ text) rest k
          (omega (arith, e, length-append {0} title (c ∷ text))))

-- The lengths in an event packet are what delimits its title and its text: whatever characters these
-- hold, bars included, behind a title of the first length and one character the text of the second is
-- read, unescaped, and the parts of the metadata, where there is any, set the other fields.
pub event_at-plain_event :
    (decoded : Bool) (title text : Text) (c : ℕ) (meta : Option Text)
    → event_at decoded
        (title ++ c ∷ (text ++ rest_of meta))
        (pos (length title))
        (pos (length text))
      ≡ event_parts decoded (parts_of meta) (plain_event title text)
unfolding event_at split
event_at-plain_event decoded title text c meta =
    let s = title ++ c ∷ (text ++ rest_of meta) in
    let n = pos (length title) +ℤ pos 1 in
    let k = pos (length title) +ℤ pos (length text) +ℤ pos 1 in
    let title_is : slice_to (pos (length title)) s ≡ title =
      slice_to-append title (c ∷ (text ++ rest_of meta)) in
    let text_is : slice n k s ≡ text =
      rw
        (
          add_pos (length title) 1,
          add_pos (length title) (length text),
          add_pos (length title + length text) 1,
        )
        (slice-middle title text (rest_of meta) c (length title + 1)
          (length title + length text + 1) refl refl) in
    let rest_is : slice_from k s ≡ rest_of meta =
      rw (add_pos (length title) (length text), add_pos (length title + length text) 1)
        (slice_from-rest title text (rest_of meta) c (length title + length text + 1) refl) in
    (λ i.
      event_parts decoded (behind_first (split b'|' (rest_is i))) (record (plain_event title text) {
        title = title_is i;
        text = unescape_event_text (text_is i);
      }))
    ∙ parts_of_lem decoded meta (plain_event title text)
