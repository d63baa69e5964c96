-- ===== src/Forwarder/Queue.antt =====
-- transaction.py: what the queue of a TransactionManager holds, and its two counters.
use mathlib.Core.HLevel.{⊥_prop}
use mathlib.Core.Logic.Or
use mathlib.Core.List.{Perm, Mem, mem-cons_self, not-mem-nil, eq-or-mem_of_mem-cons}
use mathlib.Core.List.Perm
use dd_agent.Prelude.{
  ℕ, suc, ◌+◌, ◌≡◌, refl, false, none, some, List, [], ◌∷◌, ◌++◌, ◌==◌, ==_iff, pos, ◌+ℤ◌, ◌-ℤ◌,
  length, length-append, All, arith, Bool-cases, inl, inr, Option-cases,
}
use dd_agent.Forwarder.Transaction.{Transaction}
use dd_agent.Forwarder.Manager.{Manager, Outcome, done, raised, remove, discard, update, enqueue}

abbrev pub sum_sizes : (ℕ → Transaction) → List ℕ → ℕ
sum_sizes heap [] = 0
sum_sizes heap (r ∷ rs) = (heap r).size + sum_sizes heap rs

-- The counters agree with the queue.
pub record IsAccounted (m : Manager) : Type 0 where
  pub counted : m.total_count ≡ pos (length m.transactions)
  pub sized : m.total_size ≡ pos (sum_sizes m.objects m.transactions)

-- The manager that a call leaves, whether it returns or raises.
abbrev pub left_by : Outcome → Manager
left_by (done m) = m
left_by (raised e m) = m

-- Nothing in the list is at the address.
abbrev pub Absent : ℕ → List ℕ → Type 0
Absent r = All (λ q. (r == q) ≡ false)

pub sum_sizes-append :
    (heap : ℕ → Transaction) (xs ys : List ℕ)
    → sum_sizes heap (xs ++ ys) ≡ sum_sizes heap xs + sum_sizes heap ys
sum_sizes-append heap [] ys = omega arith
sum_sizes-append heap (x ∷ xs) ys = omega (arith, sum_sizes-append heap xs ys)

-- A write that keeps the size, or that is to another address, keeps the sum.
pub sum_sizes-update_same :
    (heap : ℕ → Transaction) (r : ℕ) (t : Transaction) (xs : List ℕ)
    → t.size ≡ (heap r).size
    → sum_sizes (update heap r t) xs ≡ sum_sizes heap xs
unfolding update
sum_sizes-update_same heap r t [] e = refl
sum_sizes-update_same heap r t (x ∷ xs) e =
    ground (arith, sum_sizes-update_same heap r t xs e, ==_iff r x)

pub sum_sizes-update-Absent :
    (heap : ℕ → Transaction) (r : ℕ) (t : Transaction) (xs : List ℕ)
    → Absent r xs
    → sum_sizes (update heap r t) xs ≡ sum_sizes heap xs
unfolding update
sum_sizes-update-Absent heap r t [] a = refl
sum_sizes-update-Absent heap r t (x ∷ xs) a = rw (a.0, sum_sizes-update-Absent heap r t xs a.1)

pub remove-perm :
    (r : ℕ) (xs : List ℕ) {rest : List ℕ} → remove r xs ≡ some rest → Perm xs (r ∷ rest)
unfolding remove
remove-perm r [] e = cc
remove-perm r (x ∷ xs) {rest} e = elim (Bool-cases (x == r)) [
  | inl h ↦
      let same : x ≡ r = (==_iff x r).0 h in
      let tail : xs ≡ rest = ground arith in rw (same, tail) (Perm.refl (r ∷ rest))
  | inr h ↦ elim (Option-cases (remove r xs)) [
    | inl n ↦ ground arith
    | inr (rest', s) ↦
        let whole : x ∷ rest' ≡ rest = ground arith in
        rw (← whole) (Perm.trans (Perm.cons x (remove-perm r xs s)) (Perm.swap r x rest'))
  ]
]

pub not-mem_of_remove-none : (r : ℕ) (xs : List ℕ) → remove r xs ≡ none → ¬ Mem r xs
unfolding remove
not-mem_of_remove-none r [] e = not-mem-nil
not-mem_of_remove-none r (x ∷ xs) e = λ m.
    Or.elim ⊥_prop (eq-or-mem_of_mem-cons m) (λ here. ground (arith, ==_iff x r))
      (not-mem_of_remove-none r xs
        (elim (Option-cases (remove r xs)) [ inl n ↦ n | inr (rest, s) ↦ absurd (ground arith) ]))

-- What is in the list can be removed, and the rest is what the list held besides.
pub remove_of_perm :
    (r : ℕ) (xs ys : List ℕ)
    → Perm xs (r ∷ ys)
    → (rest : List ℕ) × (remove r xs ≡ some rest) × Perm rest ys
remove_of_perm r xs ys p = elim (Option-cases (remove r xs)) [
  | inl n ↦ absurd (not-mem_of_remove-none r xs n ((Perm.mem_iff p).1 mem-cons_self))
  | inr (rest, s) ↦ (rest, s, Perm.cons_inv (Perm.trans (Perm.symm (remove-perm r xs s)) p))
]

pub remove-counts :
    (heap : ℕ → Transaction) (r : ℕ) (xs : List ℕ) {rest : List ℕ}
    → remove r xs ≡ some rest
    → (length xs ≡ suc (length rest)) × (sum_sizes heap xs ≡ (heap r).size + sum_sizes heap rest)
unfolding remove
remove-counts heap r [] e = cc
remove-counts heap r (x ∷ xs) e = elim (Bool-cases (x == r)) [
  | inl h ↦ ground (arith, ==_iff x r)
  | inr h ↦ elim (Option-cases (remove r xs)) [
    | inl n ↦ ground arith
    | inr (rest', s) ↦ ground (arith, remove-counts heap r xs s)
  ]
]

-- Whether the transaction is there or not, the counters stay right.
pub discard-IsAccounted :
    (m : Manager) (r : ℕ) → IsAccounted m → IsAccounted (left_by (discard m r))
unfolding discard ◌-ℤ◌
discard-IsAccounted m r h = elim (Option-cases (remove r m.transactions)) [
  | inl n ↦ rw (n, discard) h
  | inr (rest, s) ↦
      rw (s, discard)
        (record {
          counted = ground (arith, h.counted, remove-counts m.objects r m.transactions s);
          sized = ground (arith, h.sized, remove-counts m.objects r m.transactions s);
        })
]

pub enqueue-IsAccounted :
    (m : Manager) (r : ℕ) → IsAccounted m → IsAccounted (enqueue r (m.objects r).size m)
unfolding enqueue ◌+ℤ◌
enqueue-IsAccounted m r h = record {
  counted = ground (arith, h.counted, length-append {0} m.transactions (r ∷ []));
  sized = ground (arith, h.sized, sum_sizes-append m.objects m.transactions (r ∷ []));
}
