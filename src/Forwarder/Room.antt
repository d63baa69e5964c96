-- ===== src/Forwarder/Room.antt =====
-- transaction.py, TransactionManager.append: the loop that makes room in the queue.
use mathlib.Core.List.{Perm}
use dd_agent.Prelude.{
  ℕ, ◌≡◌, refl, ap, ◌∙◌, true, false, some, List, [], ◌∷◌, ◌++◌, ◌⊎◌, inl, inr, ℤ, pos, ◌-ℤ◌,
  Bool-cases,
}
use dd_agent.Forwarder.Manager.{Manager, done, remove, discard, evict, too_big}
use dd_agent.Forwarder.Queue.{IsAccounted, discard-IsAccounted, remove_of_perm}

-- The manager after an eviction that leaves `left` in the queue.
abbrev pub shrunk : Manager → List ℕ → ℤ → ℤ → Manager
shrunk m left count size = record m { transactions = left; total_count = count; total_size = size }

-- The manager after the removal of one transaction.
abbrev pub without : Manager → ℕ → List ℕ → Manager
without m q rest = shrunk m rest (m.total_count -ℤ pos 1) (m.total_size -ℤ pos (m.objects q).size)

-- The loop over `queue` removes its first part, and stops where the new transaction fits.
pub record Evicts (tr_size : ℕ) (queue : List ℕ) (m : Manager) : Type 0 where
  pub evicted : List ℕ
  pub kept : List ℕ
  pub left : List ℕ
  pub count : ℤ
  pub size : ℤ
  pub split : queue ≡ evicted ++ kept
  pub returns : evict tr_size queue m ≡ done (shrunk m left count size)
  pub perm : Perm left kept
  pub fits : (too_big (shrunk m left count size) tr_size ≡ false) ⊎ (kept ≡ [])
  pub accounted : IsAccounted (shrunk m left count size)

evict_fitting :
    (tr_size : ℕ) (queue : List ℕ) (m : Manager)
    → too_big m tr_size ≡ false
    → evict tr_size queue m ≡ done m
unfolding evict
evict_fitting tr_size [] m h = refl
evict_fitting tr_size (q ∷ qs) m h = rw (h, evict) (evict_fitting tr_size qs m h)

without-IsAccounted :
    (m : Manager) (q : ℕ) (rest : List ℕ)
    → remove q m.transactions ≡ some rest
    → IsAccounted m
    → IsAccounted (without m q rest)
unfolding discard
without-IsAccounted m q rest s h = rw (s, discard) at (discard-IsAccounted m q h)

-- One round of the loop.
evict_step :
    (tr_size q : ℕ) (qs rest : List ℕ) (m : Manager)
    → too_big m tr_size ≡ true
    → remove q m.transactions ≡ some rest
    → evict tr_size (q ∷ qs) m ≡ evict tr_size qs (without m q rest)
unfolding evict
evict_step tr_size q qs rest m big s = rw (big, evict) (rw (s, discard))

pub evict_lem :
    (tr_size : ℕ) (queue : List ℕ) (m : Manager)
    → Perm m.transactions queue
    → IsAccounted m
    → Evicts tr_size queue m
unfolding evict
evict_lem tr_size [] m p h = record {
  evicted = [];
  kept = [];
  left = m.transactions;
  count = m.total_count;
  size = m.total_size;
  split = refl;
  returns = refl;
  perm = p;
  fits = inr refl;
  accounted = h;
}
evict_lem tr_size (q ∷ qs) m p h = elim (Bool-cases (too_big m tr_size)) [
  | inr fit ↦ record {
    evicted = [];
    kept = q ∷ qs;
    left = m.transactions;
    count = m.total_count;
    size = m.total_size;
    split = refl;
    returns = evict_fitting tr_size (q ∷ qs) m fit;
    perm = p;
    fits = inl fit;
    accounted = h;
  }
  | inl big ↦
      let (rest, s, q_perm) = remove_of_perm q m.transactions qs p in
      let next : Evicts tr_size qs (without m q rest) =
        evict_lem tr_size qs (without m q rest) q_perm (without-IsAccounted m q rest s h) in
      record {
        evicted = q ∷ next.evicted;
        kept = next.kept;
        left = next.left;
        count = next.count;
        size = next.size;
        split = ap (◌∷◌ q) next.split;
        returns = evict_step tr_size q qs rest m big s ∙ next.returns;
        perm = next.perm;
        fits = next.fits;
        accounted = next.accounted;
      }
]
