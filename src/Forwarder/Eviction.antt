-- ===== src/Forwarder/Eviction.antt =====
-- transaction.py, TransactionManager.append: which transactions leave the queue to make room.
use mathlib.Core.List.{Perm}
use mathlib.Core.List.Perm
use dd_agent.Prelude.{
  ℕ, ◌+◌, ◌≤◌, ◌≡◌, refl, ap, ◌∙◌, true, false, none, some, List, [], ◌∷◌, ◌++◌, ◌⊎◌, inl, inr, pos,
  ◌≤ℤ◌, ◌+ℤ◌, All, All-map, arith, Bool-cases,
}
use dd_agent.Prelude.Perms.{All-perm}
use native.Mathlib.Bridge.{le_prop}
use dd_agent.Prelude.Sort.{sort, sort-perm, sort-IsSorted, IsSorted-append}
use dd_agent.Forwarder.Transaction.{Transaction, set_id}
use dd_agent.Forwarder.Manager.{
  Manager, done, ◌>>=◌, update, enqueue, append, later, too_big, make_room,
}
use dd_agent.Forwarder.Queue.{IsAccounted, sum_sizes-update_same, enqueue-IsAccounted}
use dd_agent.Forwarder.Room.{Evicts, shrunk, evict_lem}

-- What append did, for a transaction that has no id yet.
record Appends (m : Manager) (r : ℕ) : Type 0 where
  evicted : List ℕ
  kept : List ℕ
  left : List ℕ
  after : Manager
  returns : append m r ≡ done after
  queue : Perm m.transactions (evicted ++ kept)
  order :
      All (λ e. All (λ k. (after.objects k).next_flush ≤ (after.objects e).next_flush) kept) evicted
  perm : Perm left kept
  arrives : after.transactions ≡ left ++ r ∷ []
  fits : (after.total_size ≤ℤ pos after.max_queue_size) ⊎ (after.transactions ≡ r ∷ [])
  spares : too_big m (m.objects r).size ≡ false → evicted ≡ []
  accounted : IsAccounted after

-- The manager after the id has been given.
abbrev pub registered : Manager → ℕ → Manager
registered m r = record m {
  counter = m.counter + 1;
  objects = update m.objects r (record (m.objects r) { id = some (m.counter + 1) });
}

registered-IsAccounted : (m : Manager) (r : ℕ) → IsAccounted m → IsAccounted (registered m r)
registered-IsAccounted m r h = record {
  counted = h.counted;
  sized = rw sum_sizes-update_same h.sized;
}

pub append-make_room :
    (m : Manager) (r : ℕ)
    → (m.objects r).id ≡ none
    → append m r ≡ (
        make_room (m.objects r).size (registered m r) >>= λ m'.
        done (enqueue r (m.objects r).size m'))
unfolding append
append-make_room m r e = rw (e, append, set_id)

pub size-registered : (m : Manager) (r : ℕ) → ((registered m r).objects r).size ≡ (m.objects r).size
unfolding update
size-registered m r = ground arith

enqueued-IsAccounted :
    (m m' : Manager) (r : ℕ)
    → (m'.objects r).size ≡ (m.objects r).size
    → IsAccounted m'
    → IsAccounted (enqueue r (m.objects r).size m')
enqueued-IsAccounted m m' r e h = rw (← e) (enqueue-IsAccounted m' r h)

-- Where the transaction fits at once.
append_fitting :
    (m : Manager) (r : ℕ)
    → IsAccounted m
    → (m.objects r).id ≡ none
    → too_big m (m.objects r).size ≡ false
    → Appends m r
unfolding enqueue
append_fitting m r h fresh fit = record {
  evicted = [];
  kept = m.transactions;
  left = m.transactions;
  after = enqueue r (m.objects r).size (registered m r);
  returns = append-make_room m r fresh ∙ rw fit;
  queue = Perm.refl m.transactions;
  order = tt;
  perm = Perm.refl m.transactions;
  arrives = refl;
  fits = inl (ground arith);
  spares = λ _. refl;
  accounted =
      enqueued-IsAccounted m (registered m r) r (size-registered m r)
        (registered-IsAccounted m r h);
}

later-order :
    (heap : ℕ → Transaction) (queue evicted kept : List ℕ)
    → sort (later heap) queue ≡ evicted ++ kept
    → All (λ e. All (λ k. (heap k).next_flush ≤ (heap e).next_flush) kept) evicted
later-order heap queue evicted kept split =
    All-map
      (λ e.
        All-map {P = λ k. later heap k e ≡ false}
          {Q = λ k. (heap k).next_flush ≤ (heap e).next_flush} (λ k h. ground arith) kept)
      evicted
      (IsSorted-append (later heap) evicted kept (
        rw split at
          (sort-IsSorted (later heap) (λ x y h. ground arith) (λ x y z h k. ground arith) queue)))

room_or_alone :
    (m : Manager) (tr_size r : ℕ) (left kept : List ℕ)
    → Perm left kept
    → (too_big m tr_size ≡ false) ⊎ (kept ≡ [])
    → (m.total_size +ℤ pos tr_size ≤ℤ pos m.max_queue_size) ⊎ (left ++ r ∷ [] ≡ r ∷ [])
room_or_alone m tr_size r left kept p (inl fit) = inl (ground arith)
room_or_alone m tr_size r left kept p (inr e) =
    inr (ap (λ l. l ++ r ∷ []) (Perm.eq-nil (rw e at p)))

-- Where transactions have to leave.
append_evicting :
    (m : Manager) (r : ℕ)
    → IsAccounted m
    → (m.objects r).id ≡ none
    → too_big m (m.objects r).size ≡ true
    → Evicts
        (m.objects r).size
        (sort (later (registered m r).objects) m.transactions)
        (registered m r)
    → Appends m r
unfolding enqueue
append_evicting m r h fresh big step =
    let m' = registered m r in
    let lt = later m'.objects in
    let m'' = shrunk m' step.left step.count step.size in
    record {
      evicted = step.evicted;
      kept = step.kept;
      left = step.left;
      after = enqueue r (m.objects r).size m'';
      returns = append-make_room m r fresh ∙ rw big (rw step.returns);
      queue = rw (← step.split) (Perm.symm (sort-perm lt m.transactions));
      order = later-order m'.objects m.transactions step.evicted step.kept step.split;
      perm = step.perm;
      arrives = refl;
      fits = room_or_alone m'' (m.objects r).size r step.left step.kept step.perm step.fits;
      spares = λ fit. cc;
      accounted = enqueued-IsAccounted m m'' r (size-registered m r) step.accounted;
    }

append_lem : (m : Manager) (r : ℕ) → IsAccounted m → (m.objects r).id ≡ none → Appends m r
append_lem m r h fresh = elim (Bool-cases (too_big m (m.objects r).size)) [
  | inl big ↦ append_evicting m r h fresh big (
      evict_lem (m.objects r).size (sort (later (registered m r).objects) m.transactions)
        (registered m r) (Perm.symm (sort-perm (later (registered m r).objects) m.transactions))
        (registered-IsAccounted m r h))
  | inr fit ↦ append_fitting m r h fresh fit
]

-- append, of a transaction with no id yet to a manager whose counters agree with its queue, returns,
-- and the counters agree with the new queue.
pub append-IsAccounted :
    (m : Manager) (r : ℕ)
    → IsAccounted m
    → (m.objects r).id ≡ none
    → (m' : Manager) × (append m r ≡ done m') × IsAccounted m'
append-IsAccounted m r h fresh = let a = append_lem m r h fresh in (a.after, a.returns, a.accounted)

-- append, of a transaction with no id yet to a manager whose counters agree with its queue, returns,
-- and the queue that it leaves keeps within the maximal size, or it holds the new transaction and
-- nothing else.
pub append_bounded :
    (m : Manager) (r : ℕ)
    → IsAccounted m
    → (m.objects r).id ≡ none
    → (m' : Manager) × (append m r ≡ done m')
      × ((m'.total_size ≤ℤ pos m'.max_queue_size) ⊎ (m'.transactions ≡ r ∷ []))
append_bounded m r h fresh = let a = append_lem m r h fresh in (a.after, a.returns, a.fits)

-- append, of a transaction with no id yet to a manager whose counters agree with its queue, returns,
-- and splits the queue into the transactions that it evicts and those that stay, with the new one
-- last: every evicted one has a next flush at or after that of every one that stays, and none is
-- evicted where the new one fits.
pub append_evicts_latest :
    (m : Manager) (r : ℕ)
    → IsAccounted m
    → (m.objects r).id ≡ none
    → (m' : Manager) × (evicted : List ℕ) × (left : List ℕ) × (append m r ≡ done m')
      × Perm m.transactions (evicted ++ left)
      × (m'.transactions ≡ left ++ r ∷ [])
      × All (λ e. All (λ k. (m'.objects k).next_flush ≤ (m'.objects e).next_flush) left) evicted
      × (too_big m (m.objects r).size ≡ false → evicted ≡ [])
append_evicts_latest m r h fresh =
    let a = append_lem m r h fresh in
    (
      a.after,
      a.evicted,
      a.left,
      a.returns,
      Perm.trans a.queue (Perm.append_left a.evicted (Perm.symm a.perm)),
      a.arrives,
      All-map
          (λ e.
            All-perm (λ k. (a.after.objects k).next_flush ≤ (a.after.objects e).next_flush)
              (λ k. le_prop) (Perm.symm a.perm))
          a.evicted a.order,
      a.spares,
    )
