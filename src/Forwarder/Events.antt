-- ===== src/Forwarder/Events.antt =====
-- transaction.py: the events that a TransactionManager meets, as steps of a state: the manager beside
-- the transactions whose request has been sent and not answered.
use dd_agent.Prelude.{ℕ, ◌≡◌, refl, Bool, true, false, List, [], ◌∷◌, ◌++◌, if◌then◌else◌}
use dd_agent.Forwarder.Transaction.{Transaction}
use dd_agent.Forwarder.Manager.{Limits, Manager, update, init, append}
use dd_agent.Forwarder.Queue.{left_by, Absent}
use dd_agent.Forwarder.Flush.{
  Reading, Response, Choice, launch, choose, Turn, stop, again, scheduled, failed, turn, flush,
  on_response,
}

-- The manager after one call of flush_next, with what it started.
abbrev pub turned : Turn → Manager
turned (stop m) = m
turned (again m) = m
turned (scheduled m) = m
turned (failed e m) = m

-- A request that raised is not in flight.
abbrev pub sends : Reading → Choice → List ℕ → List ℕ
sends e (launch rest tr) flying = if e.raises then flying else tr ∷ flying
sends e _ flying = flying

pub turned-sleep :
    (on manual : Bool) (m : Manager)
    → turned (if on then scheduled m else if manual then again m else stop m) ≡ m
turned-sleep true manual m = refl
turned-sleep false true m = refl
turned-sleep false false m = refl

-- Answers only come for flushes that run.
pub record State : Type 0 where
  pub manager : Manager
  pub flying : List ℕ

-- A new transaction at an address of its own, a flush, a call of flush_next, or an answer.
pub data Step : State → State → Type 0 where
  appends :
      (s : State) (r : ℕ) (t : Transaction)
      → Absent r s.manager.transactions
      → Step s (record s {
        manager = left_by (append (record s.manager { objects = update s.manager.objects r t }) r);
      })
  flushes :
      (s : State) (now flush_time : ℕ)
      → Step s (record s { manager = turned (flush now flush_time [] s.manager) })
  turns :
      (s : State) (e : Reading)
      → Step s (record {
        manager = turned (turn e s.manager);
        flying = sends e (choose e s.manager) s.flying;
      })
  answers :
      (s : State) (before behind : List ℕ) (r : ℕ) (a : Response) (now : ℕ)
      → s.flying ≡ before ++ r ∷ behind
      → Step s
          (record { manager = left_by (on_response s.manager r a now); flying = before ++ behind })

pub data Reach (s : State) : State → Type 0 where
  here : Reach s s
  next : {t u : State} → Reach s t → Step t u → Reach s u

abbrev pub start : Limits → (ℕ → Transaction) → ℕ → State
start l heap now = record { manager = init l heap now; flying = [] }
