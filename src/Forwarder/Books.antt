-- ===== src/Forwarder/Books.antt =====
-- transaction.py: what keeps the queue of a TransactionManager and its counters as they are.
use mathlib.Core.Logic.{ite}
use dd_agent.Prelude.{
  ℕ, ◌+◌, ◌≤◌, ◌≡◌, refl, ap, sym, ◌∙◌, Bool, true, false, Option, none, some, List, [], ◌∷◌, ◌==◌,
  ==_iff, if◌then◌else◌, ℤ, eqb_ℤ, pos, ◌+ℤ◌, length, arith, Bool-cases, inl, inr, Option-cases,
}
use dd_agent.Prelude.Dict.{Dict}
use dd_agent.Prelude.Text.{Text, Text-discrete}
use dd_agent.Prelude.Sort.{sort}
use dd_agent.Forwarder.Transaction.{Transaction, compute_next_flush}
use dd_agent.Forwarder.Manager.{Manager, Outcome, done, raised, update}
use dd_agent.Forwarder.Queue.{left_by, sum_sizes}
use dd_agent.Forwarder.Flush.{
  Reading, divert, errors_of, Choice, over, too_long, full, sleep, launch, choose, act, turn, flush,
  due, tr_error, note_error, drop_endpoint, launched, flushed_later, then_again,
}
use dd_agent.Forwarder.Events.{turned, turned-sleep}

-- The counters agree with the queue, what has ended or waits was received, and what was rejected
-- has ended.
pub record IsBooked (m : Manager) : Type 0 where
  pub counted : m.total_count ≡ pos (length m.transactions)
  pub sized : m.total_size ≡ pos (sum_sizes m.objects m.transactions)
  pub received : m.transactions_flushed + length m.transactions ≤ m.transactions_received
  pub rejected : m.transactions_rejected ≤ m.transactions_flushed

sum_sizes_ext :
    (a b : ℕ → Transaction)
    → ((q : ℕ) → (a q).size ≡ (b q).size)
    → (xs : List ℕ) → sum_sizes a xs ≡ sum_sizes b xs
sum_sizes_ext a b h [] = refl
sum_sizes_ext a b h (x ∷ xs) = omega (arith, h x, sum_sizes_ext a b h xs)

-- Two managers with the same queue, counters and sizes.
pub record SameBooks (m m' : Manager) : Type 0 where
  pub queue : m'.transactions ≡ m.transactions
  pub count : m'.total_count ≡ m.total_count
  pub size : m'.total_size ≡ m.total_size
  pub received : m'.transactions_received ≡ m.transactions_received
  pub flushed : m'.transactions_flushed ≡ m.transactions_flushed
  pub rejected : m'.transactions_rejected ≡ m.transactions_rejected
  pub sizes : (q : ℕ) → (m'.objects q).size ≡ (m.objects q).size

pub SameBooks-IsBooked : (m m' : Manager) → SameBooks m m' → IsBooked m → IsBooked m'
SameBooks-IsBooked m m' s h = record {
  counted = rw (s.count, s.queue) h.counted;
  sized =
      rw (s.size, s.queue)
        (h.sized ∙ ap pos (sym (sum_sizes_ext m'.objects m.objects s.sizes m.transactions)));
  received = rw (s.flushed, s.queue, s.received) h.received;
  rejected = rw (s.rejected, s.flushed) h.rejected;
}

SameBooks-refl : (m : Manager) → SameBooks m m
SameBooks-refl m = record {
  queue = refl;
  count = refl;
  size = refl;
  received = refl;
  flushed = refl;
  rejected = refl;
  sizes = λ q. refl;
}

size-update :
    (heap : ℕ → Transaction) (r : ℕ) (t : Transaction) (q : ℕ)
    → t.size ≡ (heap r).size
    → (update heap r t q).size ≡ (heap q).size
unfolding update
size-update heap r t q e = ground (arith, ==_iff r q)

size-choice :
    (same : Bool) (heap : ℕ → Transaction) (r : ℕ) (t : Transaction) (q : ℕ)
    → t.size ≡ (heap r).size
    → ((if same then update heap r t else heap) q).size ≡ (heap q).size
size-choice true heap r t q e = size-update heap r t q e
size-choice false heap r t q e = refl

note_error-SameBooks : (m : Manager) (r now : ℕ) → SameBooks m (note_error m r now)
unfolding note_error
note_error-SameBooks m r now = record {
  queue = refl;
  count = refl;
  size = refl;
  received = refl;
  flushed = refl;
  rejected = refl;
  sizes = λ q. size-update m.objects r _ q refl;
}

size-divert :
    (endpoint : Text) (max_wait now : ℕ) (qs : List ℕ) (heap : ℕ → Transaction) (q : ℕ)
    → ((divert endpoint max_wait now qs heap).0 q).size ≡ (heap q).size
unfolding divert
size-divert endpoint max_wait now [] heap q = refl
size-divert endpoint max_wait now (x ∷ xs) heap q =
    let same : Bool = ite (Text-discrete (heap x).endpoint endpoint) true false in
    let t = compute_next_flush (heap x) max_wait now in
    size-divert endpoint max_wait now xs (if same then update heap x t else heap) q
    ∙ size-choice same heap x t q refl

drop_endpoint-SameBooks :
    (endpoint : Text) (now : ℕ) (m : Manager) (trs : Option (List ℕ))
    → SameBooks m (left_by (drop_endpoint endpoint now m trs))
unfolding drop_endpoint
drop_endpoint-SameBooks endpoint now m none = SameBooks-refl m
drop_endpoint-SameBooks endpoint now m (some trs) = record {
  queue = refl;
  count = refl;
  size = refl;
  received = refl;
  flushed = refl;
  rejected = refl;
  sizes = λ q. size-divert endpoint m.max_wait_for_replay now trs m.objects q;
}

SameBooks-trans : (a b c : Manager) → SameBooks a b → SameBooks b c → SameBooks a c
SameBooks-trans a b c h k = record {
  queue = k.queue ∙ h.queue;
  count = k.count ∙ h.count;
  size = k.size ∙ h.size;
  received = k.received ∙ h.received;
  flushed = k.flushed ∙ h.flushed;
  rejected = k.rejected ∙ h.rejected;
  sizes = λ q. k.sizes q ∙ h.sizes q;
}

-- A failed transaction stays in the queue.
pub tr_error-SameBooks : (m : Manager) (r now : ℕ) → SameBooks m (left_by (tr_error m r now))
unfolding tr_error
tr_error-SameBooks m r now =
    let m' = note_error m r now in
    let k = note_error-SameBooks m r now in
    elim (Bool-cases (errors_of m (m.objects r).endpoint == m.max_endpoint_errors)) [
      | inr other ↦ rw (other, tr_error) k
      | inl same ↦
          rw (same, tr_error)
            (SameBooks-trans m m'
              (left_by (drop_endpoint (m.objects r).endpoint now m' m.trs_to_flush)) k
              (drop_endpoint-SameBooks (m.objects r).endpoint now m' m.trs_to_flush))
    ]

-- The fields that the books do not depend on.
SameBooks-flush :
    (m : Manager) (running : ℤ) (trs : Option (List ℕ)) (last time count : ℕ) (errors : Dict Text ℕ)
    (finished : ℕ)
    → SameBooks m (record m {
      running_flushes = running;
      trs_to_flush = trs;
      last_flush = last;
      flush_time = time;
      flush_count = count;
      endpoints_errors = errors;
      finished_flushes = finished;
    })
SameBooks-flush m running trs last time count errors finished = record {
  queue = refl;
  count = refl;
  size = refl;
  received = refl;
  flushed = refl;
  rejected = refl;
  sizes = λ q. refl;
}

SameBooks-trs :
    (m : Manager) (trs : Option (List ℕ)) → SameBooks m (record m { trs_to_flush = trs })
SameBooks-trs m trs =
    SameBooks-flush m m.running_flushes trs m.last_flush m.flush_time m.flush_count
      m.endpoints_errors m.finished_flushes

launched-SameBooks : (e : Reading) (m : Manager) (rest : List ℕ) → SameBooks m (launched e m rest)
launched-SameBooks e m rest =
    SameBooks-flush m (m.running_flushes +ℤ pos 1) (some rest) e.start m.flush_time m.flush_count
      m.endpoints_errors m.finished_flushes

SameBooks-then_again :
    (m : Manager) (o : Outcome) → SameBooks m (left_by o) → SameBooks m (turned (then_again o))
SameBooks-then_again m (done m') h = h
SameBooks-then_again m (raised x m') h = h

act-SameBooks : (e : Reading) (m : Manager) (c : Choice) → SameBooks m (turned (act e m c))
unfolding act
act-SameBooks e m over = elim (Bool-cases (eqb_ℤ m.running_flushes (pos 0))) [
  | inl idle ↦ rw idle (SameBooks-trs m none)
  | inr busy ↦ rw busy (SameBooks-refl m)
]
act-SameBooks e m too_long = SameBooks-trs m (some [])
act-SameBooks e m full = SameBooks-refl m
act-SameBooks e m sleep =
    rw (turned-sleep e.ioloop_running m.flush_without_ioloop m) (SameBooks-refl m)
act-SameBooks e m (launch rest r) =
    let m' = launched e m rest in
    let k = launched-SameBooks e m rest in
    elim (Bool-cases e.raises) [
      | inr sent ↦ rw sent k
      | inl fails ↦ rw fails (
          SameBooks-then_again m (tr_error m' r e.error) (
            SameBooks-trans m m' (left_by (tr_error m' r e.error)) k
              (tr_error-SameBooks m' r e.error)))
    ]

pub turn-SameBooks : (e : Reading) (m : Manager) → SameBooks m (turned (turn e m))
unfolding turn
turn-SameBooks e m = act-SameBooks e m (choose e m)

pub flush-SameBooks :
    (now flush_time : ℕ) (m : Manager) → SameBooks m (turned (flush now flush_time [] m))
unfolding flush
flush-SameBooks now flush_time m = elim (Option-cases m.trs_to_flush) [
  | inr (trs, busy) ↦ simp (busy, flush) (SameBooks-refl m)
  | inl free ↦
      simp (free, flush)
        (elim (Bool-cases (length (due m now) == 0)) [
          | inl nothing ↦ rw nothing (
              SameBooks-flush m m.running_flushes m.trs_to_flush m.last_flush m.flush_time
                (m.flush_count + 1) m.endpoints_errors m.finished_flushes)
          | inr some_due ↦ rw some_due (
              SameBooks-flush m m.running_flushes
                (some (sort (flushed_later m.objects) (due m now))) m.last_flush flush_time
                (m.flush_count + 1) [] 0)
        ])
]
