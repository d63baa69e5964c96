-- ===== src/Forwarder/Order.antt =====
-- transaction.py, TransactionManager.flush and flush_next: which transactions a flush sends, and in
-- which order.
use mathlib.Core.List.{Perm, perm_middle, append-nil}
use mathlib.Core.List.Perm
use dd_agent.Prelude.{
  ◌||◌, ◌&&◌, ℕ, ◌+◌, ◌*◌, ◌%◌, ◌≤◌, ◌<◌, ◌≡◌, refl, ap, ◌∙◌, Bool, true, false, Option, none, some,
  List, [], ◌∷◌, ◌++◌, ◌==◌, ltb, if◌then◌else◌, min, All, All-map, arith, Bool-cases, inl, inr,
  ◌⊎◌,
}
use dd_agent.Prelude.Sort.{sort, sort-perm, sort-IsSorted, IsSorted, IsSorted-append}
use dd_agent.Forwarder.Transaction.{Transaction, second, compute_next_flush}
use dd_agent.Forwarder.Manager.{Manager}
use dd_agent.Forwarder.Flush.{Reading, launch, choose, pop, prepare, due, flushed_later, lt_id}

shorter-min : (td max_delay : ℕ) → (if ltb max_delay td then max_delay else td) ≡ min td max_delay
shorter-min td max_delay = ground arith

-- A transaction that failed is due within a second of the time after which it is to be replayed:
-- twenty seconds for each error, at most the maximal delay, counted from now and rounded down to a
-- whole second.
pub compute_next_flush_bounds :
    (t : Transaction) (max_delay now : ℕ)
    → ((compute_next_flush t max_delay now).next_flush
        ≤ now + min (t.error_count * 20 * second) max_delay)
      × (now + min (t.error_count * 20 * second) max_delay
          < (compute_next_flush t max_delay now).next_flush + second)
      × ((compute_next_flush t max_delay now).next_flush % second ≡ 0)
unfolding compute_next_flush
compute_next_flush_bounds t max_delay now =
    rw (shorter-min (t.error_count * 20 * second) max_delay) (omega arith, omega arith, omega arith)

pub pop-append : (x : ℕ) (xs : List ℕ) → x ∷ xs ≡ (pop x xs).0 ++ (pop x xs).1 ∷ []
unfolding pop
pop-append x [] = refl
pop-append x (y ∷ ys) = ap (◌∷◌ x) (pop-append y ys)

abbrev key_lt : ℕ → Option ℕ → ℕ → Option ℕ → Bool
key_lt a i b j = ltb b a || (a == b && lt_id i j)

key_lt_asym : (a b : ℕ) (i j : Option ℕ) → key_lt a i b j ≡ true → key_lt b j a i ≡ false
key_lt_asym a b none none h = ground arith
key_lt_asym a b none (some j) h = ground arith
key_lt_asym a b (some i) none h = ground arith
key_lt_asym a b (some i) (some j) h = ground arith

key_lt_trans :
    (a b c : ℕ) (i j k : Option ℕ)
    → key_lt b j a i ≡ false
    → key_lt c k b j ≡ false
    → key_lt c k a i ≡ false
key_lt_trans a b c none none none h l = ground arith
key_lt_trans a b c none none (some k) h l = ground arith
key_lt_trans a b c none (some j) none h l = ground arith
key_lt_trans a b c none (some j) (some k) h l = ground arith
key_lt_trans a b c (some i) none none h l = ground arith
key_lt_trans a b c (some i) none (some k) h l = ground arith
key_lt_trans a b c (some i) (some j) none h l = ground arith
key_lt_trans a b c (some i) (some j) (some k) h l = ground arith

key_lt_fewer :
    (a b : ℕ) (i j : Option ℕ) → key_lt a i b j ≡ false → (a < b) ⊎ ((a ≡ b) × (lt_id i j ≡ false))
key_lt_fewer a b i j h = elim (Bool-cases (ltb a b)) [
  | inl less ↦ inl (ground arith)
  | inr more ↦ inr (ground arith, ground arith)
]

prepare-IsSorted :
    (heap : ℕ → Transaction) (xs : List ℕ)
    → IsSorted (flushed_later heap) (sort (flushed_later heap) xs)
prepare-IsSorted heap xs =
    sort-IsSorted (flushed_later heap)
      (λ x y h. key_lt_asym (heap x).error_count (heap y).error_count (heap x).id (heap y).id h)
      (λ x y z h k.
        key_lt_trans (heap x).error_count (heap y).error_count (heap z).error_count (heap x).id
          (heap y).id (heap z).id h k)
      xs

pub choose-pop :
    (e : Reading) (m : Manager) (xs rest : List ℕ) (tr : ℕ)
    → m.trs_to_flush ≡ some xs
    → choose e m ≡ launch rest tr
    → xs ≡ rest ++ tr ∷ []
unfolding choose
choose-pop e m [] rest tr h k = ground arith
choose-pop e m (x ∷ xs) rest tr h k = pop-append x xs ∙ ground arith

-- The first request that a flush sends is for a transaction that is due and has the fewest errors,
-- and of those with as few the greatest id; the flush goes on with the others that are due.
pub flush_sends_newest :
    (e : Reading) (m : Manager) (now flush_time : ℕ) (rest : List ℕ) (tr : ℕ)
    → choose e (prepare now flush_time m) ≡ launch rest tr
    → Perm (tr ∷ rest) (due m now)
      × All
          (λ q.
            ((m.objects tr).error_count < (m.objects q).error_count)
            ⊎ (((m.objects tr).error_count ≡ (m.objects q).error_count)
                × (lt_id (m.objects tr).id (m.objects q).id ≡ false)))
          rest
unfolding prepare
flush_sends_newest e m now flush_time rest tr h =
    let lt = flushed_later m.objects in
    let split : sort lt (due m now) ≡ rest ++ tr ∷ [] =
      choose-pop e (prepare now flush_time m) (sort lt (due m now)) rest tr refl h in
    (
      Perm.trans (Perm.symm (rw append-nil at (perm_middle {a = tr} rest [])))
          (rw split at (sort-perm lt (due m now))),
      All-map
          (λ q k.
            key_lt_fewer (m.objects tr).error_count (m.objects q).error_count (m.objects tr).id
              (m.objects q).id k.0)
          rest
          (IsSorted-append lt rest (tr ∷ [])
            (rw split at (prepare-IsSorted m.objects (due m now)))),
    )
