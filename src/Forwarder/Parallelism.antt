-- ===== src/Forwarder/Parallelism.antt =====
-- transaction.py: the running flushes of a TransactionManager, over every sequence of events.
use dd_agent.Prelude.{
  ℕ, suc, ◌≤◌, ◌≡◌, ◌≢◌, refl, sym, ◌∙◌, true, none, List, [], ◌∷◌, ◌++◌, ◌==◌, eqb_ℤ, ltb_ℤ, pos,
  ◌+ℤ◌, ◌-ℤ◌, length, length-append, arith, Bool-cases, inl, inr, Option-cases,
}
use dd_agent.Forwarder.Transaction.{Transaction}
use dd_agent.Forwarder.Manager.{Limits, Manager, update, done, init, append}
use dd_agent.Forwarder.Queue.{left_by}
use dd_agent.Forwarder.Flush.{
  Reading, Choice, over, too_long, full, sleep, launch, choose, act, turn, flush, due, tr_error,
  on_response, launched,
}
use dd_agent.Forwarder.Events.{
  turned, turned-sleep, sends, State, Step, Reach, here, next, appends, flushes, turns, answers,
  start,
}
use dd_agent.Forwarder.Running.{tr_error_lem, append-Keeps, on_response-Ends}

-- Only running flushes are answered, and no flush runs that is not in flight. Without a flush in
-- progress none runs.
pub record IsThrottled (m : Manager) (flying : List ℕ) : Type 0 where
  pub running : m.running_flushes ≡ pos (length flying)
  pub bounded : length flying ≤ m.max_parallelism
  pub idle : m.trs_to_flush ≡ none → flying ≡ []

choose-launch :
    (e : Reading) (m : Manager) (rest : List ℕ) (tr : ℕ)
    → choose e m ≡ launch rest tr
    → ltb_ℤ m.running_flushes (pos m.max_parallelism) ≡ true
unfolding choose
choose-launch e m rest tr h = ground arith

appends-IsThrottled :
    (s : State) (r : ℕ) (t : Transaction)
    → IsThrottled s.manager s.flying
    → IsThrottled
        (left_by (append (record s.manager { objects = update s.manager.objects r t }) r))
        s.flying
appends-IsThrottled s r t h =
    let k = append-Keeps (record s.manager { objects = update s.manager.objects r t }) r in
    record {
      running = k.running ∙ h.running;
      bounded = rw k.limits h.bounded;
      idle = λ e. h.idle (sym k.to_flush ∙ e);
    }

nil_of_length : {A : Type 0} (xs : List A) → length xs ≡ 0 → xs ≡ []
nil_of_length [] e = refl
nil_of_length (x ∷ xs) e = absurd (omega arith)

flushes-IsThrottled :
    (m : Manager) (flying : List ℕ) (now flush_time : ℕ)
    → IsThrottled m flying
    → IsThrottled (turned (flush now flush_time [] m)) flying
unfolding flush
flushes-IsThrottled m flying now flush_time h = elim (Option-cases m.trs_to_flush) [
  | inr (trs, busy) ↦ rw (busy, flush) h
  | inl free ↦
      rw (free, flush)
        (elim (Bool-cases (length (due m now) == 0)) [
          | inl nothing ↦
              rw nothing (record { running = h.running; bounded = h.bounded; idle = h.idle })
          | inr some_due ↦
              rw some_due (record { running = h.running; bounded = h.bounded; idle = λ n. cc })
        ])
]

launched-running :
    (m : Manager) (flying : List ℕ)
    → IsThrottled m flying
    → m.running_flushes +ℤ pos 1 ≡ pos (suc (length flying))
unfolding ◌+ℤ◌
launched-running m flying h = ground (arith, h.running)

raised-running :
    (m : Manager) (flying : List ℕ)
    → IsThrottled m flying
    → m.running_flushes +ℤ pos 1 -ℤ pos 1 ≡ pos (length flying)
unfolding ◌+ℤ◌ ◌-ℤ◌
raised-running m flying h = ground (arith, h.running)

act-IsThrottled :
    (e : Reading) (m : Manager) (flying : List ℕ) (c : Choice)
    → choose e m ≡ c
    → IsThrottled m flying
    → IsThrottled (turned (act e m c)) (sends e c flying)
unfolding act
act-IsThrottled e m flying over p h = elim (Bool-cases (eqb_ℤ m.running_flushes (pos 0))) [
  | inl none_runs ↦ rw none_runs (record {
    running = h.running;
    bounded = h.bounded;
    idle = λ _. nil_of_length flying (ground (arith, h.running));
  })
  | inr some_run ↦ rw some_run h
]
act-IsThrottled e m flying too_long p h = record {
  running = h.running;
  bounded = h.bounded;
  idle = λ n. cc;
}
act-IsThrottled e m flying full p h = h
act-IsThrottled e m flying sleep p h = rw (turned-sleep e.ioloop_running m.flush_without_ioloop m) h
act-IsThrottled e m flying (launch rest tr) p h = elim (Bool-cases e.raises) [
  | inr sent ↦ rw sent (record {
    running = launched-running m flying h;
    bounded = ground (arith, h.running, choose-launch e m rest tr p);
    idle = λ n. cc;
  })
  | inl fails ↦
      let r = tr_error_lem (launched e m rest) tr e.error rest refl in
      rw fails (
        rw r.returns (record {
          running = r.running ∙ raised-running m flying h;
          bounded = rw r.limits h.bounded;
          idle = λ n. cc (r.to_flush);
        }))
]

turn-IsThrottled :
    (e : Reading) (m : Manager) (flying : List ℕ)
    → IsThrottled m flying
    → IsThrottled (turned (turn e m)) (sends e (choose e m) flying)
unfolding turn
turn-IsThrottled e m flying h = act-IsThrottled e m flying (choose e m) refl h

-- A flush that ends without an error of its endpoint's: one less runs.
ended-IsThrottled :
    (m m' : Manager) (before behind : List ℕ) (r : ℕ)
    → IsThrottled m (before ++ r ∷ behind)
    → m'.running_flushes ≡ m.running_flushes -ℤ pos 1
    → m'.trs_to_flush ≢ none
    → m'.limits ≡ m.limits
    → IsThrottled m' (before ++ behind)
unfolding ◌-ℤ◌
ended-IsThrottled m m' before behind r h one busy same = record {
  running =
      one
      ∙ ground (
        arith,
        h.running,
        length-append {0} before (r ∷ behind),
        length-append {0} before behind,
      );
  bounded = rw same (
      omega
        (arith, h.bounded, length-append {0} before (r ∷ behind), length-append {0} before behind));
  idle = λ n. absurd (busy n);
}

not-nil_of_flying :
    (m : Manager) (before behind : List ℕ) (r : ℕ)
    → IsThrottled m (before ++ r ∷ behind)
    → m.trs_to_flush ≢ none
not-nil_of_flying m [] behind r h n = cc (h.idle n)
not-nil_of_flying m (x ∷ before) behind r h n = cc (h.idle n)

Step-IsThrottled :
    {s t : State} → Step s t → IsThrottled s.manager s.flying → IsThrottled t.manager t.flying
Step-IsThrottled (appends s r t own) h = appends-IsThrottled s r t h
Step-IsThrottled (flushes s now flush_time) h =
    flushes-IsThrottled s.manager s.flying now flush_time h
Step-IsThrottled (turns s e) h = turn-IsThrottled e s.manager s.flying h
Step-IsThrottled (answers s before behind r a now split) h =
    let h' : IsThrottled s.manager (before ++ r ∷ behind) = rw (← split) h in
    let busy = not-nil_of_flying s.manager before behind r h' in
    let e = on_response-Ends s.manager r a now busy in
    ended-IsThrottled s.manager (left_by (on_response s.manager r a now)) before behind r h'
      e.running e.busy e.limits

-- Whatever the limits, in every state that any sequence of appends, flushes, calls of flush_next and
-- answers leads to from a new manager, the running flushes are as many as the requests in flight,
-- they are at most max_parallelism, and none is in flight when no flush is in progress.
pub Reach-IsThrottled :
    (l : Limits) (heap : ℕ → Transaction) (now : ℕ) {s : State}
    → Reach (start l heap now) s
    → IsThrottled s.manager s.flying
unfolding init
Reach-IsThrottled l heap now here = record {
  running = refl;
  bounded = omega arith;
  idle = λ _. refl;
}
Reach-IsThrottled l heap now (next r st) = Step-IsThrottled st (Reach-IsThrottled l heap now r)

-- In every state that is reached, tr_error of a transaction in flight returns: its loop over the
-- transactions to flush never meets None.
pub tr_error-returns :
    (l : Limits) (heap : ℕ → Transaction) (now : ℕ) {s : State} (before behind : List ℕ) (r at : ℕ)
    → Reach (start l heap now) s
    → s.flying ≡ before ++ r ∷ behind
    → (m' : Manager) × (tr_error s.manager r at ≡ done m')
tr_error-returns l heap now {s} before behind r at reach split =
    let h : IsThrottled s.manager (before ++ r ∷ behind) =
      rw (← split) (Reach-IsThrottled l heap now reach) in
    elim (Option-cases s.manager.trs_to_flush) [
      | inl n ↦ absurd (not-nil_of_flying s.manager before behind r h n)
      | inr (trs, e) ↦ let x = tr_error_lem s.manager r at trs e in (x.after, x.returns)
    ]
