-- ===== src/Forwarder/Drain.antt =====
-- transaction.py: a flush whose requests are all answered without an error empties the queue of what
-- was due.
use mathlib.Core.Path.{subst}
use mathlib.Core.List.{Perm, append_assoc, mem-cons_self, perm_middle}
use mathlib.Core.List.Perm
use dd_agent.Prelude.{
  ℕ, zero, suc, ◌+◌, ◌<◌, ◌≡◌, refl, ap, ◌∙◌, Bool, false, none, some, List, [], ◌∷◌, ◌++◌, ◌==◌,
  pos, length, length-append, arith, keep, Bool-cases, inl, inr, not,
}
use dd_agent.Prelude.Sort.{sort, sort-perm, length-sort}
use dd_agent.Forwarder.Transaction.{time_to_flush}
use dd_agent.Forwarder.Manager.{Manager}
use dd_agent.Forwarder.Flush.{flush, prepare, due, flushed_later, pop}
use dd_agent.Forwarder.Events.{turned, State}
use dd_agent.Forwarder.Order.{pop-append}
use dd_agent.Forwarder.Endings.{tr_success_ends}
use dd_agent.Forwarder.Prompt.{
  Delivers, begun, IsReady, sending, answered, sending-Delivers, answered-Delivers,
  answered-IsReady, ending-Delivers,
}

-- What is left of a flush.
record Drains (b s : State) (n : ℕ) (others : List ℕ) : Type 0 where
  after : State
  delivers : Delivers b after
  flushed : after.manager.transactions_flushed ≡ s.manager.transactions_flushed + n
  rejected : after.manager.transactions_rejected ≡ s.manager.transactions_rejected
  over : after.manager.trs_to_flush ≡ none
  flying : after.flying ≡ []
  left : Perm after.manager.transactions others

drain_empty :
    (b s : State) (others : List ℕ)
    → s.manager.trs_to_flush ≡ some []
    → IsReady s
    → Perm s.manager.transactions others
    → Delivers b s
    → Drains b s 0 others
drain_empty b s others e ready p d = record {
  after = record { manager = record s.manager { trs_to_flush = none }; flying = s.flying };
  delivers = ending-Delivers b s e ready d;
  flushed = omega arith;
  rejected = refl;
  over = refl;
  flying = ready.flying;
  left = p;
}

drain :
    (n : ℕ) (b s : State) (xs others : List ℕ)
    → length xs ≡ n
    → s.manager.trs_to_flush ≡ some xs
    → IsReady s
    → Perm s.manager.transactions (xs ++ others)
    → Delivers b s
    → Drains b s n others
drain zero b s [] others l e ready p d = drain_empty b s others e ready p d
drain (suc n) b s [] others l e ready p d = absurd (omega arith)
drain zero b s (x ∷ xs) others l e ready p d = absurd (omega arith)
drain (suc n) b s (x ∷ xs) others l e ready p d =
    let rest = (pop x xs).0 in
    let r = (pop x xs).1 in
    let split : x ∷ xs ≡ rest ++ r ∷ [] = pop-append x xs in
    let queue : Perm s.manager.transactions (r ∷ rest ++ others) =
      Perm.trans
        (subst (Perm s.manager.transactions)
          (ap (λ ys. ys ++ others) split ∙ append_assoc rest (r ∷ []) others) p)
        (perm_middle rest others) in
    let (left, returns, perm) =
      (tr_success_ends (sending s rest r).manager r).0
        ((Perm.mem_iff (Perm.symm queue)).0 mem-cons_self) in
    let later =
      drain n b (answered s rest r left) rest others
        (omega (arith, l, ap (λ ys. length ys) split, length-append {0} rest (r ∷ []))) refl
        (answered-IsReady s rest left r ready) (Perm.cons_inv (Perm.trans (Perm.symm perm) queue))
        (answered-Delivers b s rest left r ready.flying returns
          (sending-Delivers b s x xs e ready d)) in
    record {
      after = later.after;
      delivers = later.delivers;
      flushed = omega (arith, later.flushed);
      rejected = later.rejected;
      over = later.over;
      flying = later.flying;
      left = later.left;
    }

flush_starts :
    (m : Manager) (now flush_time : ℕ)
    → m.trs_to_flush ≡ none
    → 0 < length (due m now)
    → turned (flush now flush_time [] m)
      ≡ record (prepare now flush_time m) { flush_count = m.flush_count + 1 }
unfolding flush prepare
flush_starts m now flush_time free some_due =
    let busy : (length (due m now) == 0) ≡ false = ground arith in simp (free, busy, flush) refl

-- keep takes out of a list what it leaves.
keep-perm : (p : ℕ → Bool) (xs : List ℕ) → Perm xs (keep p xs ++ keep (λ x. not (p x)) xs)
keep-perm p [] = Perm.refl []
keep-perm p (x ∷ xs) = elim (Bool-cases (p x)) [
  | inl kept ↦ rw kept (Perm.cons x (keep-perm p xs))
  | inr left ↦ rw left (
      Perm.trans (Perm.cons x (keep-perm p xs))
        (Perm.symm (perm_middle (keep p xs) (keep (λ x. not (p x)) xs))))
]

-- From a state with no flush in progress, a parallelism and a duration that are not zero, and a
-- transaction that is due, a flush, then calls of flush_next whose requests are sent and answers
-- without an error, and nothing else, lead to a state with no flush in progress and no request in
-- flight. Its queue holds what was not due and nothing else, the transactions that were due are all
-- counted as flushed, and none is counted as rejected.
pub flush_drains :
    (s : State) (now flush_time : ℕ)
    → s.manager.trs_to_flush ≡ none
    → s.manager.running_flushes ≡ pos 0
    → s.flying ≡ []
    → 0 < s.manager.max_parallelism
    → 0 < s.manager.max_flush_duration
    → 0 < length (due s.manager now)
    → (t : State) × Delivers (record s { manager = turned (flush now flush_time [] s.manager) }) t
      × (t.manager.trs_to_flush ≡ none)
      × (t.flying ≡ [])
      × Perm t.manager.transactions
          (keep (λ r. not (time_to_flush (s.manager.objects r) now)) s.manager.transactions)
      × (t.manager.transactions_flushed
          ≡ s.manager.transactions_flushed
            + length (keep (λ r. time_to_flush (s.manager.objects r) now) s.manager.transactions))
      × (t.manager.transactions_rejected ≡ s.manager.transactions_rejected)
unfolding prepare
flush_drains s now flush_time free idle none_fly parallel lasting some_due =
    let m = s.manager in
    let trs = sort (flushed_later m.objects) (due m now) in
    let others = keep (λ r. not (time_to_flush (m.objects r) now)) m.transactions in
    let t : State = record s {
      manager = record (prepare now flush_time m) { flush_count = m.flush_count + 1 };
    } in
    let b : State = record s { manager = turned (flush now flush_time [] m) } in
    let d =
      drain (length trs) b t trs others refl refl
        (record { running = idle; flying = none_fly; parallel = parallel; lasting = lasting })
        (Perm.trans (keep-perm (λ r. time_to_flush (m.objects r) now) m.transactions)
          (Perm.append_right others (Perm.symm (sort-perm (flushed_later m.objects) (due m now)))))
        (subst (Delivers b)
          (ap (λ x. record s { manager = x }) (flush_starts m now flush_time free some_due))
          begun) in
    (
      d.after,
      d.delivers,
      d.over,
      d.flying,
      d.left,
      d.flushed
          ∙ ap (λ k. m.transactions_flushed + k)
              (length-sort (flushed_later m.objects) (due m now)),
      d.rejected,
    )
