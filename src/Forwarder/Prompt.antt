-- ===== src/Forwarder/Prompt.antt =====
-- transaction.py: a call of flush_next that finds no reason to wait, and an answer without an error, as
-- steps of a delivery.
use mathlib.Core.Path.{subst}
use dd_agent.Prelude.{
  ℕ, ◌+◌, ◌<◌, ◌≡◌, refl, ap, ◌∙◌, true, false, none, some, List, [], ◌∷◌, ◌++◌, leb, eqb_ℤ, ltb_ℤ,
  pos, ◌+ℤ◌, ◌-ℤ◌, arith,
}
use dd_agent.Forwarder.Manager.{Manager, done}
use dd_agent.Forwarder.Queue.{left_by}
use dd_agent.Forwarder.Room.{without}
use dd_agent.Forwarder.Flush.{
  Reading, Response, over, launch, choose, act, turn, launched, finish, count_flushed, on_response,
  tr_success, pop,
}
use dd_agent.Forwarder.Events.{turned, sends, State}

-- The states that calls of flush_next whose requests are sent, and answers without an error, lead to.
-- No transaction is appended, no flush is started, and no request is rejected or fails.
pub data Delivers (s : State) : State → Type 0 where
  begun : Delivers s s
  called :
      {t : State} (e : Reading)
      → e.raises ≡ false
      → Delivers s t
      → Delivers s (record {
        manager = turned (turn e t.manager);
        flying = sends e (choose e t.manager) t.flying;
      })
  confirmed :
      {t : State} (before behind : List ℕ) (r : ℕ) (a : Response) (now : ℕ)
      → a.error ≡ false
      → t.flying ≡ before ++ r ∷ behind
      → Delivers s t
      → Delivers s
          (record { manager = left_by (on_response t.manager r a now); flying = before ++ behind })

-- No request is in flight, and a flush may send one.
pub record IsReady (s : State) : Type 0 where
  pub running : s.manager.running_flushes ≡ pos 0
  pub flying : s.flying ≡ []
  pub parallel : 0 < s.manager.max_parallelism
  pub lasting : 0 < s.manager.max_flush_duration

-- The clock has not moved since the flush began, and the throttling delay is over.
abbrev pub prompt : Manager → Reading
prompt m = record {
  check = m.flush_time;
  throttle = m.last_flush + m.throttling_delay;
  start = m.last_flush + m.throttling_delay;
  error = 0;
  raises = false;
  ioloop_running = true;
}

abbrev pub fine : Response
fine = record { error = false; code = 200 }

choose-prompt :
    (m : Manager) (x : ℕ) (xs : List ℕ)
    → m.trs_to_flush ≡ some (x ∷ xs)
    → m.running_flushes ≡ pos 0
    → 0 < m.max_parallelism
    → 0 < m.max_flush_duration
    → choose (prompt m) m ≡ launch (pop x xs).0 (pop x xs).1
unfolding choose
choose-prompt m x xs e idle parallel lasting =
    let soon : leb (m.flush_time + m.max_flush_duration) m.flush_time ≡ false = ground arith in
    let throttled : leb (m.last_flush + m.throttling_delay) (m.last_flush + m.throttling_delay)
        ≡ true =
      ground arith in
    let free : ltb_ℤ m.running_flushes (pos m.max_parallelism) ≡ true = ground arith in
    rw (e, choose) (rw soon (rw throttled (rw free refl)))

-- The request for the last transaction of the flush is sent.
abbrev pub sending : State → List ℕ → ℕ → State
sending s rest r = record {
  manager = launched (prompt s.manager) s.manager rest;
  flying = r ∷ s.flying;
}

pub sending-Delivers :
    (b s : State) (x : ℕ) (xs : List ℕ)
    → s.manager.trs_to_flush ≡ some (x ∷ xs)
    → IsReady s
    → Delivers b s
    → Delivers b (sending s (pop x xs).0 (pop x xs).1)
unfolding turn act
sending-Delivers b s x xs e ready d =
    let chosen = choose-prompt s.manager x xs e ready.running ready.parallel ready.lasting in
    subst (Delivers b)
      (λ i. record {
        manager = turned (act (prompt s.manager) s.manager (chosen i));
        flying = sends (prompt s.manager) (chosen i) s.flying;
      })
      (called (prompt s.manager) refl d)

-- Its answer takes it out of the queue.
abbrev pub answered : State → List ℕ → ℕ → List ℕ → State
answered s rest r left = record {
  manager = count_flushed (without (finish (launched (prompt s.manager) s.manager rest)) r left);
  flying = [];
}

pub answered-Delivers :
    (b s : State) (rest left : List ℕ) (r : ℕ)
    → s.flying ≡ []
    → tr_success (sending s rest r).manager r
      ≡ done (count_flushed (without (finish (sending s rest r).manager) r left))
    → Delivers b (sending s rest r)
    → Delivers b (answered s rest r left)
unfolding on_response
answered-Delivers b s rest left r none_flies e d =
    subst (Delivers b) (λ i. record { manager = left_by (e i); flying = [] })
      (confirmed [] [] r fine 0 refl (ap (◌∷◌ r) none_flies) d)

pub answered-IsReady :
    (s : State) (rest left : List ℕ) (r : ℕ) → IsReady s → IsReady (answered s rest r left)
unfolding ◌+ℤ◌ ◌-ℤ◌
answered-IsReady s rest left r ready = record {
  running = ground (arith, ready.running);
  flying = refl;
  parallel = ready.parallel;
  lasting = ready.lasting;
}

choose_empty : (e : Reading) (m : Manager) → m.trs_to_flush ≡ some [] → choose e m ≡ over
unfolding choose
choose_empty e m none_left = rw (none_left, choose)

act_over :
    (e : Reading) (m : Manager)
    → m.running_flushes ≡ pos 0
    → turned (act e m over) ≡ record m { trs_to_flush = none }
unfolding act
act_over e m idle = let ends : eqb_ℤ m.running_flushes (pos 0) ≡ true = ground arith in rw ends refl

pub ending-Delivers :
    (b s : State)
    → s.manager.trs_to_flush ≡ some []
    → IsReady s
    → Delivers b s
    → Delivers b (record s { manager = record s.manager { trs_to_flush = none } })
unfolding turn
ending-Delivers b s e ready d =
    let chosen = choose_empty (prompt s.manager) s.manager e in
    subst (Delivers b)
      ((λ i. record {
        manager = turned (act (prompt s.manager) s.manager (chosen i));
        flying = sends (prompt s.manager) (chosen i) s.flying;
      })
        ∙ ap (λ m. record s { manager = m }) (act_over (prompt s.manager) s.manager ready.running))
      (called (prompt s.manager) refl d)
