-- ===== src/Packet/Rejoin.antt =====
-- aggregator.py, parse_metric_packet: the loop that mends the tags that the split by ':' broke.
use mathlib.Core.List.{append_assoc}
use dd_agent.Prelude.{
  ℕ, ◌≡◌, refl, ap, ◌∙◌, sym, List, [], ◌∷◌, ◌++◌, true, false, Bool-cases, inl, inr, All, ◌==◌,
}
use dd_agent.Prelude.Text.{Text}
use dd_agent.Packet.Split.{has, split, join, join-split, split-ne_nil}

-- `partial` is partial_datum; a token with no '|' goes on with it.
unfoldable pub rejoin : Text → List Text → List Text
rejoin partial [] = partial ∷ []
rejoin partial (t ∷ ts) = elim (has b'|' t) [
  | false ↦ rejoin (partial ++ b':' ∷ t) ts
  | true ↦ partial ∷ rejoin t ts
]

unfoldable pub data_of : List Text → List Text
unfolding rejoin
data_of [] = []
data_of (t ∷ ts) = rejoin t ts

join-cons :
    (c : ℕ) (p t : Text) (ts : List Text) → join c ((p ++ c ∷ t) ∷ ts) ≡ p ++ c ∷ join c (t ∷ ts)
unfolding join
join-cons c p t [] = refl
join-cons c p t (u ∷ us) = append_assoc p (c ∷ t) (c ∷ join c (u ∷ us))

join-two : (c : ℕ) (p t : Text) (ts : List Text) → join c (p ∷ t ∷ ts) ≡ p ++ c ∷ join c (t ∷ ts)
unfolding join
join-two c p t ts = refl

join-rejoin_cons :
    (p t : Text) (ts : List Text)
    → join b':' (p ∷ rejoin t ts) ≡ p ++ b':' ∷ join b':' (rejoin t ts)
unfolding join rejoin
join-rejoin_cons p t [] = refl
join-rejoin_cons p t (u ∷ us) = elim (Bool-cases (has b'|' u)) [
  | inl bar ↦ rw (bar, rejoin)
  | inr none_ ↦ rw (none_, rejoin) (join-rejoin_cons p (t ++ b':' ∷ u) us)
]

join-rejoin : (p : Text) (ts : List Text) → join b':' (rejoin p ts) ≡ join b':' (p ∷ ts)
unfolding rejoin
join-rejoin p [] = refl
join-rejoin p (t ∷ ts) = elim (Bool-cases (has b'|' t)) [
  | inl bar ↦
      rw (bar, rejoin)
        (join-rejoin_cons p t ts
          ∙ ap (λ (x : Text). p ++ b':' ∷ x) (join-rejoin t ts)
          ∙ sym (join-two b':' p t ts))
  | inr plain ↦
      rw (plain, rejoin)
        (join-rejoin (p ++ b':' ∷ t) ts ∙ join-cons b':' p t ts ∙ sym (join-two b':' p t ts))
]

has-append : (c : ℕ) (p q : Text) → has c p ≡ true → has c (p ++ q) ≡ true
unfolding has
has-append c [] q h = cc
has-append c (d ∷ ds) q h = elim (Bool-cases (d == c)) [
  | inl here ↦ rw here
  | inr other ↦ rw other (has-append c ds q (rw other at h))
]

abbrev pub HasBar : Text → Type 0
HasBar d = has b'|' d ≡ true

rejoin-HasBar : (p : Text) (ts : List Text) → HasBar p → All HasBar (rejoin p ts)
unfolding rejoin
rejoin-HasBar p [] h = (h, tt)
rejoin-HasBar p (t ∷ ts) h = elim (Bool-cases (has b'|' t)) [
  | inl bar ↦ rw (bar, rejoin) (h, rejoin-HasBar t ts bar)
  | inr plain ↦
      rw (plain, rejoin) (rejoin-HasBar (p ++ b':' ∷ t) ts (has-append b'|' p (b':' ∷ t) h))
]

abbrev pub behind : List Text → List Text
behind [] = []
behind (x ∷ xs) = xs

rejoin-behind : (p : Text) (ts : List Text) → All HasBar (behind (rejoin p ts))
unfolding rejoin
rejoin-behind p [] = tt
rejoin-behind p (t ∷ ts) = elim (Bool-cases (has b'|' t)) [
  | inl bar ↦ rw (bar, rejoin) (rejoin-HasBar t ts bar)
  | inr plain ↦ rw (plain, rejoin) (rejoin-behind (p ++ b':' ∷ t) ts)
]

-- The data into which the part of a packet behind its name is divided are, joined by ':', that part
-- again: no character is lost. Each of them but the first has a '|'.
pub data_of-lossless :
    (s : Text)
    → (join b':' (data_of (split b':' s)) ≡ s) × All HasBar (behind (data_of (split b':' s)))
unfolding data_of
data_of-lossless s =
    let (t, ts, e) = split-ne_nil b':' s in
    (
      rw e (join-rejoin t ts ∙ sym (ap (join b':') e) ∙ join-split b':' s),
      rw e (rejoin-behind t ts),
    )
