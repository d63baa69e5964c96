-- ===== src/Forwarder/Running.antt =====
-- transaction.py: what an append and the end of a flush do to the running flushes of a
-- TransactionManager.
use dd_agent.Prelude.{
  ℕ, ◌≡◌, ◌≢◌, refl, sym, ◌||◌, ◌∙◌, none, some, List, [], ◌∷◌, ◌==◌, pos, ◌-ℤ◌, Bool-cases, inl,
  inr, Option-cases,
}
use dd_agent.Prelude.Sort.{sort}
use dd_agent.Forwarder.Transaction.{set_id, inc_error_count}
use dd_agent.Forwarder.Manager.{
  Manager, Outcome, make_room, update, done, raised, ◌>>=◌, remove, discard, append, evict, enqueue,
  too_big, later,
}
use dd_agent.Forwarder.Queue.{left_by}
use dd_agent.Forwarder.Room.{without}
use dd_agent.Forwarder.Eviction.{registered, append-make_room}
use dd_agent.Forwarder.Flush.{
  divert, errors_of, Response, tr_error, tr_success, tr_error_reject_request, note_error,
  drop_endpoint, on_response, count_flushed, count_rejected, finish,
}

-- tr_error takes one off the running flushes; while a flush is in progress it returns.
pub record Errs (m : Manager) (tr now : ℕ) : Type 0 where
  pub after : Manager
  pub trs : List ℕ
  pub returns : tr_error m tr now ≡ done after
  pub running : after.running_flushes ≡ m.running_flushes -ℤ pos 1
  pub limits : after.limits ≡ m.limits
  pub to_flush : after.trs_to_flush ≡ some trs

pub tr_error_lem :
    (m : Manager) (tr now : ℕ) (trs : List ℕ) → m.trs_to_flush ≡ some trs → Errs m tr now
unfolding tr_error
tr_error_lem m tr now trs e =
    elim (Bool-cases (errors_of m (m.objects tr).endpoint == m.max_endpoint_errors)) [
      | inr other ↦ record {
        after = note_error m tr now;
        trs = trs;
        returns = rw (other, tr_error);
        running = refl;
        limits = refl;
        to_flush = e;
      }
      | inl same ↦
          let split =
            divert (m.objects tr).endpoint m.max_wait_for_replay now trs
              (note_error m tr now).objects in
          record {
            after = record (note_error m tr now) { objects = split.0; trs_to_flush = some split.1 };
            trs = split.1;
            returns = rw (same, tr_error) (rw (e, drop_endpoint));
            running = refl;
            limits = refl;
            to_flush = refl;
          }
    ]

-- Whatever raises, append leaves these fields alone.
evict-keeps :
    (tr_size : ℕ) (queue : List ℕ) (m : Manager)
    → ((left_by (evict tr_size queue m)).running_flushes ≡ m.running_flushes)
      × ((left_by (evict tr_size queue m)).trs_to_flush ≡ m.trs_to_flush)
      × ((left_by (evict tr_size queue m)).limits ≡ m.limits)
unfolding evict
evict-keeps tr_size [] m = (refl, refl, refl)
evict-keeps tr_size (q ∷ qs) m = elim (Bool-cases (too_big m tr_size)) [
  | inr fit ↦ rw (fit, evict) (evict-keeps tr_size qs m)
  | inl big ↦ elim (Option-cases (remove q m.transactions)) [
    | inl n ↦ rw (big, evict) (rw (n, discard) (refl, refl, refl))
    | inr (rest, s) ↦ rw (big, evict) (rw (s, discard) (evict-keeps tr_size qs (without m q rest)))
  ]
]

-- What a call leaves of a manager's fields.
pub record Keeps (m : Manager) (o : Outcome) : Type 0 where
  pub running : (left_by o).running_flushes ≡ m.running_flushes
  pub to_flush : (left_by o).trs_to_flush ≡ m.trs_to_flush
  pub limits : (left_by o).limits ≡ m.limits

make_room-Keeps : (tr_size : ℕ) (m : Manager) → Keeps m (make_room tr_size m)
make_room-Keeps tr_size m = elim (Bool-cases (too_big m tr_size)) [
  | inr fit ↦ rw fit (record { running = refl; to_flush = refl; limits = refl })
  | inl big ↦
      let (a, b, c) = evict-keeps tr_size (sort (later m.objects) m.transactions) m in
      rw big (record { running = a; to_flush = b; limits = c })
]

enqueue-Keeps :
    (m : Manager) (r tr_size : ℕ) (o : Outcome)
    → Keeps m o
    → Keeps m (o >>= λ m'. done (enqueue r tr_size m'))
unfolding enqueue
enqueue-Keeps m r tr_size (done m') k = record {
  running = k.running;
  to_flush = k.to_flush;
  limits = k.limits;
}
enqueue-Keeps m r tr_size (raised e m') k = k

pub append-Keeps : (m : Manager) (r : ℕ) → Keeps m (append m r)
unfolding append
append-Keeps m r = elim (Option-cases (m.objects r).id) [
  | inr (i, old) ↦
      rw (old, append, set_id) (record { running = refl; to_flush = refl; limits = refl })
  | inl fresh ↦ rw (append-make_room m r fresh) (
      let k =
        enqueue-Keeps (registered m r) r (m.objects r).size
          (make_room (m.objects r).size (registered m r))
          (make_room-Keeps (m.objects r).size (registered m r)) in
      record { running = k.running; to_flush = k.to_flush; limits = k.limits })
]

discard-Keeps : (m : Manager) (r : ℕ) → Keeps m (discard m r)
unfolding discard
discard-Keeps m r = elim (Option-cases (remove r m.transactions)) [
  | inl n ↦ rw (n, discard) (record { running = refl; to_flush = refl; limits = refl })
  | inr (rest, s) ↦ rw (s, discard) (record { running = refl; to_flush = refl; limits = refl })
]

-- A part of the model that a last write adds to, and that is not among the fields kept.
count-Keeps :
    (m : Manager) (o : Outcome) (f : Manager → Manager)
    → ((m' : Manager) → Keeps m' (done (f m')))
    → Keeps m o
    → Keeps m (o >>= λ m'. done (f m'))
count-Keeps m (done m') f k h = record {
  running = (k m').running ∙ h.running;
  to_flush = (k m').to_flush ∙ h.to_flush;
  limits = (k m').limits ∙ h.limits;
}
count-Keeps m (raised e m') f k h = h

-- Each way to end takes one off the running flushes.
pub record Ends (m : Manager) (o : Outcome) : Type 0 where
  pub running : (left_by o).running_flushes ≡ m.running_flushes -ℤ pos 1
  pub busy : (left_by o).trs_to_flush ≢ none
  pub limits : (left_by o).limits ≡ m.limits

tr_success-Ends : (m : Manager) (r : ℕ) → m.trs_to_flush ≢ none → Ends m (tr_success m r)
unfolding tr_success
tr_success-Ends m r busy =
    let k =
      count-Keeps (finish m) (discard (finish m) r) count_flushed
        (λ m'. record { running = refl; to_flush = refl; limits = refl })
        (discard-Keeps (finish m) r) in
    record { running = k.running; busy = λ n. busy (sym k.to_flush ∙ n); limits = k.limits }

tr_error_reject_request-Ends :
    (m : Manager) (r : ℕ) → m.trs_to_flush ≢ none → Ends m (tr_error_reject_request m r)
unfolding tr_error_reject_request
tr_error_reject_request-Ends m r busy =
    let m' = record (finish m) { objects = update m.objects r (inc_error_count (m.objects r)) } in
    let k =
      count-Keeps m' (discard m' r) count_rejected
        (λ m''. record { running = refl; to_flush = refl; limits = refl }) (discard-Keeps m' r) in
    record { running = k.running; busy = λ n. busy (sym k.to_flush ∙ n); limits = k.limits }

tr_error-Ends : (m : Manager) (r now : ℕ) → m.trs_to_flush ≢ none → Ends m (tr_error m r now)
tr_error-Ends m r now busy = elim (Option-cases m.trs_to_flush) [
  | inl n ↦ absurd (busy n)
  | inr (trs, e) ↦
      let x = tr_error_lem m r now trs e in
      rw x.returns (record { running = x.running; busy = λ n. cc (x.to_flush); limits = x.limits })
]

pub on_response-Ends :
    (m : Manager) (r : ℕ) (a : Response) (now : ℕ)
    → m.trs_to_flush ≢ none
    → Ends m (on_response m r a now)
unfolding on_response
on_response-Ends m r a now busy = elim (Bool-cases a.error) [
  | inr fine ↦ rw (fine, on_response) (tr_success-Ends m r busy)
  | inl bad ↦
      rw (bad, on_response)
        (elim (Bool-cases (a.code == 413 || a.code == 400)) [
          | inl reject ↦ rw reject (tr_error_reject_request-Ends m r busy)
          | inr retry ↦ rw retry (tr_error-Ends m r now busy)
        ])
]
