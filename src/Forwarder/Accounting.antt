-- ===== src/Forwarder/Accounting.antt =====
-- transaction.py: the counters of a TransactionManager, over every sequence of events.
use dd_agent.Prelude.{
  ℕ, ◌≡◌, refl, ◌||◌, some, List, [], ◌∷◌, ◌==◌, ◌+ℤ◌, ◌-ℤ◌, length-append, arith, Bool-cases, inl,
  inr, Option-cases,
}
use dd_agent.Prelude.Sort.{sort}
use dd_agent.Forwarder.Transaction.{Transaction, set_id, inc_error_count}
use dd_agent.Forwarder.Manager.{
  Limits, Manager, Outcome, done, raised, ◌>>=◌, init, remove, discard, append, evict, enqueue,
  make_room, too_big, later, update,
}
use dd_agent.Forwarder.Queue.{
  left_by, Absent, sum_sizes-update-Absent, sum_sizes-update_same, remove-counts, sum_sizes-append,
}
use dd_agent.Forwarder.Room.{without}
use dd_agent.Forwarder.Eviction.{registered, size-registered, append-make_room}
use dd_agent.Forwarder.Books.{
  IsBooked, SameBooks-IsBooked, tr_error-SameBooks, turn-SameBooks, flush-SameBooks,
}
use dd_agent.Forwarder.Flush.{
  Response, turn, flush, tr_error, tr_success, tr_error_reject_request, on_response, count_flushed,
  count_rejected, finish,
}
use dd_agent.Forwarder.Events.{
  turned, State, Step, Reach, here, next, appends, flushes, turns, answers, start,
}

-- One transaction less, and maybe one more that has ended.
without-IsBooked :
    (m : Manager) (q : ℕ) (rest : List ℕ)
    → remove q m.transactions ≡ some rest
    → IsBooked m
    → IsBooked (without m q rest)
unfolding ◌-ℤ◌
without-IsBooked m q rest s h =
    let (fewer, less) = remove-counts m.objects q m.transactions s in
    record {
      counted = ground (arith, h.counted, fewer);
      sized = ground (arith, h.sized, less);
      received = omega (arith, h.received, fewer);
      rejected = h.rejected;
    }

flushed-IsBooked :
    (m : Manager) (q : ℕ) (rest : List ℕ)
    → remove q m.transactions ≡ some rest
    → IsBooked m
    → IsBooked (count_flushed (without m q rest))
flushed-IsBooked m q rest s h =
    let k = without-IsBooked m q rest s h in
    record {
      counted = k.counted;
      sized = k.sized;
      received = omega (arith, h.received, (remove-counts m.objects q m.transactions s).0);
      rejected = omega (arith, h.rejected);
    }

rejected-IsBooked :
    (m : Manager) (q : ℕ) (rest : List ℕ)
    → remove q m.transactions ≡ some rest
    → IsBooked m
    → IsBooked (count_rejected (without m q rest))
rejected-IsBooked m q rest s h =
    let k = flushed-IsBooked m q rest s h in
    record {
      counted = k.counted;
      sized = k.sized;
      received = k.received;
      rejected = omega (arith, h.rejected);
    }

finish-IsBooked : (m : Manager) → IsBooked m → IsBooked (finish m)
finish-IsBooked m h = record {
  counted = h.counted;
  sized = h.sized;
  received = h.received;
  rejected = h.rejected;
}

tr_success-IsBooked : (m : Manager) (r : ℕ) → IsBooked m → IsBooked (left_by (tr_success m r))
unfolding tr_success
tr_success-IsBooked m r h = elim (Option-cases (remove r m.transactions)) [
  | inl n ↦ rw (n, discard) (finish-IsBooked m h)
  | inr (rest, s) ↦ rw (s, discard) (flushed-IsBooked (finish m) r rest s (finish-IsBooked m h))
]

tr_error_reject_request-IsBooked :
    (m : Manager) (r : ℕ) → IsBooked m → IsBooked (left_by (tr_error_reject_request m r))
unfolding tr_error_reject_request
tr_error_reject_request-IsBooked m r h =
    let m' = record (finish m) { objects = update m.objects r (inc_error_count (m.objects r)) } in
    let k : IsBooked m' = record {
      counted = h.counted;
      sized = rw sum_sizes-update_same h.sized;
      received = h.received;
      rejected = h.rejected;
    } in
    elim (Option-cases (remove r m.transactions)) [
      | inl n ↦ rw (n, discard) k
      | inr (rest, s) ↦ rw (s, discard) (rejected-IsBooked m' r rest s k)
    ]

on_response-IsBooked :
    (m : Manager) (r : ℕ) (a : Response) (now : ℕ)
    → IsBooked m
    → IsBooked (left_by (on_response m r a now))
unfolding on_response
on_response-IsBooked m r a now h = elim (Bool-cases a.error) [
  | inr fine ↦ rw (fine, on_response) (tr_success-IsBooked m r h)
  | inl bad ↦
      rw (bad, on_response)
        (elim (Bool-cases (a.code == 413 || a.code == 400)) [
          | inl reject ↦ rw reject (tr_error_reject_request-IsBooked m r h)
          | inr retry ↦
              rw retry
                (SameBooks-IsBooked m (left_by (tr_error m r now)) (tr_error-SameBooks m r now) h)
        ])
]

evict-IsBooked :
    (tr_size : ℕ) (queue : List ℕ) (m : Manager)
    → IsBooked m
    → IsBooked (left_by (evict tr_size queue m))
unfolding evict
evict-IsBooked tr_size [] m h = h
evict-IsBooked tr_size (q ∷ qs) m h = elim (Bool-cases (too_big m tr_size)) [
  | inr fit ↦ rw (fit, evict) (evict-IsBooked tr_size qs m h)
  | inl big ↦ elim (Option-cases (remove q m.transactions)) [
    | inl n ↦ rw (big, evict) (rw (n, discard) h)
    | inr (rest, s) ↦
        rw (big, evict)
          (rw (s, discard)
            (evict-IsBooked tr_size qs (without m q rest) (without-IsBooked m q rest s h)))
  ]
]

enqueue-IsBooked :
    (m : Manager) (r tr_size : ℕ)
    → (m.objects r).size ≡ tr_size
    → IsBooked m
    → IsBooked (enqueue r tr_size m)
unfolding enqueue ◌+ℤ◌
enqueue-IsBooked m r tr_size e h = record {
  counted = ground (arith, h.counted, length-append {0} m.transactions (r ∷ []));
  sized = ground (arith, h.sized, sum_sizes-append m.objects m.transactions (r ∷ []));
  received = omega (arith, h.received, length-append {0} m.transactions (r ∷ []));
  rejected = h.rejected;
}

evict-objects :
    (tr_size : ℕ) (queue : List ℕ) (m : Manager)
    → (left_by (evict tr_size queue m)).objects ≡ m.objects
unfolding evict
evict-objects tr_size [] m = refl
evict-objects tr_size (q ∷ qs) m = elim (Bool-cases (too_big m tr_size)) [
  | inr fit ↦ rw (fit, evict) (evict-objects tr_size qs m)
  | inl big ↦ elim (Option-cases (remove q m.transactions)) [
    | inl n ↦ rw (big, evict) (rw (n, discard) refl)
    | inr (rest, s) ↦
        rw (big, evict) (rw (s, discard) (evict-objects tr_size qs (without m q rest)))
  ]
]

enqueued-IsBooked :
    (r tr_size : ℕ) (o : Outcome)
    → ((left_by o).objects r).size ≡ tr_size
    → IsBooked (left_by o)
    → IsBooked (left_by (o >>= λ m'. done (enqueue r tr_size m')))
enqueued-IsBooked r tr_size (done m) e h = enqueue-IsBooked m r tr_size e h
enqueued-IsBooked r tr_size (raised x m) e h = h

make_room-IsBooked :
    (tr_size : ℕ) (m : Manager)
    → IsBooked m
    → IsBooked (left_by (make_room tr_size m))
      × ((left_by (make_room tr_size m)).objects ≡ m.objects)
make_room-IsBooked tr_size m h = elim (Bool-cases (too_big m tr_size)) [
  | inr fit ↦ rw fit (h, refl)
  | inl big ↦
      let queue = sort (later m.objects) m.transactions in
      rw big (evict-IsBooked tr_size queue m h, evict-objects tr_size queue m)
]

registered-IsBooked : (m : Manager) (r : ℕ) → IsBooked m → IsBooked (registered m r)
registered-IsBooked m r h = record {
  counted = h.counted;
  sized = rw sum_sizes-update_same h.sized;
  received = h.received;
  rejected = h.rejected;
}

append-IsBooked : (m : Manager) (r : ℕ) → IsBooked m → IsBooked (left_by (append m r))
unfolding append
append-IsBooked m r h = elim (Option-cases (m.objects r).id) [
  | inr (i, old) ↦
      rw (old, append, set_id)
        (record {
          counted = h.counted;
          sized = h.sized;
          received = h.received;
          rejected = h.rejected;
        })
  | inl fresh ↦
      let tr_size = (m.objects r).size in
      let (k, same) = make_room-IsBooked tr_size (registered m r) (registered-IsBooked m r h) in
      rw (append-make_room m r fresh) (
        enqueued-IsBooked r tr_size (make_room tr_size (registered m r))
          (rw same (size-registered m r)) k)
]

-- A new object at an address of its own changes no size in the queue.
arrival-IsBooked :
    (m : Manager) (r : ℕ) (t : Transaction)
    → Absent r m.transactions
    → IsBooked m
    → IsBooked (record m { objects = update m.objects r t })
arrival-IsBooked m r t own h = record {
  counted = h.counted;
  sized = rw (sum_sizes-update-Absent m.objects r t m.transactions own) h.sized;
  received = h.received;
  rejected = h.rejected;
}

Step-IsBooked : {s t : State} → Step s t → IsBooked s.manager → IsBooked t.manager
Step-IsBooked (appends s r t own) h =
    append-IsBooked (record s.manager { objects = update s.manager.objects r t }) r
      (arrival-IsBooked s.manager r t own h)
Step-IsBooked (flushes s now flush_time) h =
    SameBooks-IsBooked s.manager (turned (flush now flush_time [] s.manager))
      (flush-SameBooks now flush_time s.manager) h
Step-IsBooked (turns s e) h =
    SameBooks-IsBooked s.manager (turned (turn e s.manager)) (turn-SameBooks e s.manager) h
Step-IsBooked (answers s before behind r a now split) h = on_response-IsBooked s.manager r a now h

-- In every state that any sequence of appends, flushes, calls of flush_next and answers leads to from
-- a new manager, whatever raises on the way, the counter of transactions is the length of the queue,
-- the counter of bytes is the sum of its sizes, the transactions that have ended and those in the
-- queue are together at most those received, and those rejected at most those that have ended.
pub Reach-IsBooked :
    (l : Limits) (heap : ℕ → Transaction) (now : ℕ) {s : State}
    → Reach (start l heap now) s
    → IsBooked s.manager
unfolding init
Reach-IsBooked l heap now here = record {
  counted = refl;
  sized = refl;
  received = omega arith;
  rejected = omega arith;
}
Reach-IsBooked l heap now (next r st) = Step-IsBooked st (Reach-IsBooked l heap now r)
