-- ===== src/Forwarder/Endings.antt =====
-- transaction.py: how transactions end.
use mathlib.Core.Logic.{ite}
use mathlib.Core.Option
use dd_agent.Prelude.Dict.{get, get-put}
use mathlib.Core.List.{Mem, Perm, mem-cons_self}
use mathlib.Core.List.Perm
use dd_agent.Prelude.{
  ==_iff, ℕ, ◌≡◌, refl, ap, ◌∙◌, Bool, true, false, not, some, List, [], ◌∷◌, ◌==◌, if◌then◌else◌,
  keep, arith, Bool-cases, Option-cases, inl, inr, ◌+◌, pos, ◌-ℤ◌,
}
use dd_agent.Prelude.Text.{Text, Text-discrete}
use dd_agent.Forwarder.Transaction.{Transaction, inc_error_count, compute_next_flush}
use dd_agent.Forwarder.Manager.{Manager, done, raised, value_error, update, remove, discard}
use dd_agent.Forwarder.Queue.{not-mem_of_remove-none, remove-perm}
use dd_agent.Forwarder.Room.{without}
use dd_agent.Forwarder.Flush.{
  divert, drop_endpoint, errors_of, note_error, tr_error, tr_success, finish, count_flushed,
}

-- A transaction to the endpoint.
abbrev pub to_endpoint : Text → (ℕ → Transaction) → ℕ → Bool
to_endpoint endpoint heap q = ite (Text-discrete (heap q).endpoint endpoint) true false

endpoint-update :
    (heap : ℕ → Transaction) (r : ℕ) (t : Transaction) (q : ℕ)
    → t.endpoint ≡ (heap r).endpoint
    → (update heap r t q).endpoint ≡ (heap q).endpoint
unfolding update
endpoint-update heap r t q e = ground (arith, ==_iff r q)

keep-update :
    (endpoint : Text) (heap : ℕ → Transaction) (r : ℕ) (t : Transaction) (qs : List ℕ)
    → t.endpoint ≡ (heap r).endpoint
    → keep (λ q. not (to_endpoint endpoint (update heap r t) q)) qs
      ≡ keep (λ q. not (to_endpoint endpoint heap q)) qs
keep-update endpoint heap r t [] e = refl
keep-update endpoint heap r t (q ∷ qs) e =
    rw (endpoint-update heap r t q e, keep-update endpoint heap r t qs e)

keep-choice :
    (endpoint : Text) (same : Bool) (heap : ℕ → Transaction) (r : ℕ) (t : Transaction) (qs : List ℕ)
    → t.endpoint ≡ (heap r).endpoint
    → keep (λ q. not (to_endpoint endpoint (if same then update heap r t else heap) q)) qs
      ≡ keep (λ q. not (to_endpoint endpoint heap q)) qs
keep-choice endpoint true heap r t qs e = keep-update endpoint heap r t qs e
keep-choice endpoint false heap r t qs e = refl

if-not :
    (same : Bool) (q : ℕ) (xs ys : List ℕ)
    → xs ≡ ys
    → (if same then xs else q ∷ xs) ≡ (if not same then q ∷ ys else ys)
if-not true q xs ys e = e
if-not false q xs ys e = ap (◌∷◌ q) e

divert-keep :
    (endpoint : Text) (max_wait now : ℕ) (qs : List ℕ) (heap : ℕ → Transaction)
    → (divert endpoint max_wait now qs heap).1 ≡ keep (λ q. not (to_endpoint endpoint heap q)) qs
unfolding divert
divert-keep endpoint max_wait now [] heap = refl
divert-keep endpoint max_wait now (q ∷ qs) heap =
    let same = to_endpoint endpoint heap q in
    let t = compute_next_flush (heap q) max_wait now in
    let heap' : ℕ → Transaction = if same then update heap q t else heap in
    if-not same q (divert endpoint max_wait now qs heap').1
      (keep (λ r. not (to_endpoint endpoint heap r)) qs)
      (divert-keep endpoint max_wait now qs heap' ∙ keep-choice endpoint same heap q t qs refl)

-- While a flush is in progress tr_error returns. The error is counted for the endpoint of the failed
-- transaction and for no other, one flush less runs and one more has finished. The transactions that are still to be flushed are
-- the same as before, unless the count is now max_endpoint_errors: then those to the endpoint of the
-- failed transaction leave the flush and the others stay, in their order.
pub tr_error-drops_endpoint :
    (m : Manager) (r now : ℕ) (trs : List ℕ)
    → m.trs_to_flush ≡ some trs
    → (m' : Manager) × (tr_error m r now ≡ done m')
      × (m'.trs_to_flush
          ≡ some (
              if Option.get_or (get Text-discrete m.endpoints_errors (m.objects r).endpoint) 0 + 1
                == m.max_endpoint_errors
              then keep (λ q. not (to_endpoint (m.objects r).endpoint m.objects q)) trs
              else trs))
      × ((e : Text)
          → get Text-discrete m'.endpoints_errors e
            ≡ ite
                (Text-discrete (m.objects r).endpoint e)
                (some (
                  Option.get_or (get Text-discrete m.endpoints_errors (m.objects r).endpoint) 0
                  + 1))
                (get Text-discrete m.endpoints_errors e))
      × (m'.running_flushes ≡ m.running_flushes -ℤ pos 1)
      × (m'.finished_flushes ≡ m.finished_flushes + 1)
      × (m'.transactions ≡ m.transactions)
unfolding tr_error note_error inc_error_count compute_next_flush
tr_error-drops_endpoint m r now trs busy =
    let endpoint = (m.objects r).endpoint in
    let counts =
      λ (e : Text). get-put Text-discrete m.endpoints_errors endpoint e (errors_of m endpoint) in
    elim (Bool-cases (errors_of m endpoint == m.max_endpoint_errors)) [
      | inr other ↦
          (note_error m r now, rw (other, tr_error), rw other busy, counts, refl, refl, refl)
      | inl reached ↦
          let m' = note_error m r now in
          let split = divert endpoint m.max_wait_for_replay now trs m'.objects in
          (
            record m' { objects = split.0; trs_to_flush = some split.1 },
            rw (reached, tr_error) (rw (busy, drop_endpoint)),
            rw reached (
                ap some (
                  divert-keep endpoint m.max_wait_for_replay now trs m'.objects
                  ∙ keep-update endpoint m.objects r _ trs refl)),
            counts,
            refl,
            refl,
            refl,
          )
    ]

pub tr_success_ends :
    (m : Manager) (r : ℕ)
    → (Mem r m.transactions
        → (rest : List ℕ) × (tr_success m r ≡ done (count_flushed (without (finish m) r rest)))
          × Perm m.transactions (r ∷ rest))
      × (¬ Mem r m.transactions → tr_success m r ≡ raised value_error (finish m))
unfolding tr_success
tr_success_ends m r = elim (Option-cases (remove r m.transactions)) [
  | inl n ↦ (λ h. absurd (not-mem_of_remove-none r m.transactions n h), λ h. rw (n, discard))
  | inr (rest, s) ↦
      let p = remove-perm r m.transactions s in
      ((λ h. (rest, rw (s, discard), p)), λ h. absurd (h ((Perm.mem_iff p).1 mem-cons_self)))
]

-- Where the transaction is in the queue, tr_success returns, one occurrence of it less is in the queue
-- and the others are as before, the two counters of the queue lose it and its size, it is counted as
-- flushed and not as rejected, one flush less runs and one more has finished. Where it is not, because
-- append has evicted it while its request was in flight, tr_success raises a ValueError, and of its
-- writes only those stay by which one flush less runs and one more has finished.
pub tr_success-cases :
    (m : Manager) (r : ℕ)
    → (Mem r m.transactions
        → (m' : Manager) × (tr_success m r ≡ done m')
          × Perm m.transactions (r ∷ m'.transactions)
          × (m'.total_count ≡ m.total_count -ℤ pos 1)
          × (m'.total_size ≡ m.total_size -ℤ pos (m.objects r).size)
          × (m'.transactions_flushed ≡ m.transactions_flushed + 1)
          × (m'.transactions_rejected ≡ m.transactions_rejected)
          × (m'.running_flushes ≡ m.running_flushes -ℤ pos 1)
          × (m'.finished_flushes ≡ m.finished_flushes + 1)
          × (m'.trs_to_flush ≡ m.trs_to_flush))
      × (¬ Mem r m.transactions
          → tr_success m r
            ≡ raised value_error (record m {
              running_flushes = m.running_flushes -ℤ pos 1;
              finished_flushes = m.finished_flushes + 1;
            }))
tr_success-cases m r =
    let (found, gone) = tr_success_ends m r in
    (
      (λ h.
          let (rest, returns, perm) = found h in
          (
            count_flushed (without (finish m) r rest),
            returns,
            perm,
            refl,
            refl,
            refl,
            refl,
            refl,
            refl,
            refl,
          )),
      gone,
    )
