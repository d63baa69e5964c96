-- ===== src/Forwarder/Termination.antt =====
-- transaction.py, TransactionManager.flush_next: that its calls of itself come to an end.
use dd_agent.Prelude.{
  ℕ, suc, ◌≤◌, ◌<◌, ◌≡◌, refl, ap, sym, ◌∙◌, Bool, true, false, not, Option, none, some, List, [],
  ◌∷◌, ◌==◌, if◌then◌else◌, keep, length, length-append, length-keep-le, arith, Bool-cases, inl,
  inr,
}
use dd_agent.Prelude.Text.{Text}
use dd_agent.Forwarder.Manager.{Limits, Manager, Outcome}
use mathlib.Core.Path.{subst}
use dd_agent.Forwarder.Queue.{left_by}
use dd_agent.Forwarder.Events.{turned}
use dd_agent.Forwarder.Endings.{to_endpoint, tr_error-drops_endpoint}
use dd_agent.Forwarder.Order.{choose-pop}
use dd_agent.Forwarder.Flush.{
  Reading, Choice, over, too_long, full, sleep, launch, choose, Turn, stop, again, scheduled,
  failed, act, turn, flush_next, drop_endpoint, errors_of, note_error, tr_error, launched,
}

-- The transactions that a flush has still to send.
abbrev pub waiting : Manager → ℕ
waiting m = elim m.trs_to_flush [ none ↦ 0 | some trs ↦ length trs ]

waiting-some : (m : Manager) (trs : List ℕ) → m.trs_to_flush ≡ some trs → waiting m ≡ length trs
waiting-some m trs e = ground arith

-- flush_next has returned, or the IOLoop is to call it again, or an exception has left it.
abbrev pub Settles : Turn → Type 0
Settles (again m) = ⊥
Settles _ = Unit

choose-too_long :
    (e : Reading) (m : Manager) (trs : Option (List ℕ))
    → m.trs_to_flush ≡ trs
    → choose e m ≡ too_long
    → 0 < waiting m
unfolding choose
choose-too_long e m none s h = ground arith
choose-too_long e m (some []) s h = ground arith
choose-too_long e m (some (x ∷ xs)) s h = rw (waiting-some m (x ∷ xs) s) (omega arith)

choose-launch_waiting :
    (e : Reading) (m : Manager) (trs : Option (List ℕ)) (rest : List ℕ) (r : ℕ)
    → m.trs_to_flush ≡ trs
    → choose e m ≡ launch rest r
    → waiting m ≡ suc (length rest)
choose-launch_waiting e m none rest r s h = unfold choose in ground arith
choose-launch_waiting e m (some trs) rest r s h =
    rw (waiting-some m trs s, choose-pop e m trs rest r s h)
      (omega (arith, length-append {0} rest (r ∷ [])))

-- A turn that goes on leaves less to send.
record Shrinks (m m' : Manager) : Type 0 where
  less : waiting m' < waiting m
  manual : m'.flush_without_ioloop ≡ m.flush_without_ioloop

length-if-keep :
    (b : Bool) (p : ℕ → Bool) (xs : List ℕ) → length (if b then keep p xs else xs) ≤ length xs
length-if-keep true p xs = length-keep-le p xs
length-if-keep false p xs = omega arith

drop_endpoint-limits :
    (endpoint : Text) (now : ℕ) (m : Manager) (trs : Option (List ℕ))
    → (left_by (drop_endpoint endpoint now m trs)).limits ≡ m.limits
unfolding drop_endpoint
drop_endpoint-limits endpoint now m none = refl
drop_endpoint-limits endpoint now m (some trs) = refl

tr_error-limits : (m : Manager) (r now : ℕ) → (left_by (tr_error m r now)).limits ≡ m.limits
unfolding tr_error
tr_error-limits m r now =
    elim (Bool-cases (errors_of m (m.objects r).endpoint == m.max_endpoint_errors)) [
      | inr other ↦ rw (other, tr_error)
      | inl same ↦
          rw (same, tr_error)
            (drop_endpoint-limits (m.objects r).endpoint now (note_error m r now) m.trs_to_flush)
    ]

launch-Shrinks :
    (e : Reading) (m m' : Manager) (rest : List ℕ) (r : ℕ)
    → choose e m ≡ launch rest r
    → act e m (launch rest r) ≡ again m'
    → Shrinks m m'
unfolding act
launch-Shrinks e m m' rest r p h = elim (Bool-cases e.raises) [
  | inr sent ↦
      let goes_on : act e m (launch rest r) ≡ again (launched e m rest) = rw (sent, act) in
      subst (Shrinks m) (ap turned (sym goes_on ∙ h))
        (record { less = omega (arith, waits); manual = refl })
  | inl fails ↦
      let m'' = launched e m rest in
      let (after, returns, trs, _, _, _, _) = tr_error-drops_endpoint m'' r e.error rest refl in
      let goes_on : act e m (launch rest r) ≡ again after = rw (fails, act) (rw returns) in
      subst (Shrinks m) (ap turned (sym goes_on ∙ h)) (record {
        less = rw (waiting-some after _ trs) (
            omega (
              arith,
              waits,
              length-if-keep (errors_of m'' (m''.objects r).endpoint == m''.max_endpoint_errors)
                  (λ q. not (to_endpoint (m''.objects r).endpoint m''.objects q)) rest,
            ));
        manual =
            ap (λ (l : Limits). l.flush_without_ioloop)
              (ap (λ (o : Outcome). (left_by o).limits) (sym returns)
                ∙ tr_error-limits m'' r e.error);
      })
]
  where
    waits : waiting m ≡ suc (length rest)
    waits = choose-launch_waiting e m m.trs_to_flush rest r refl p

act-Shrinks :
    (e : Reading) (m m' : Manager) (c : Choice)
    → m.flush_without_ioloop ≡ false
    → choose e m ≡ c
    → act e m c ≡ again m'
    → Shrinks m m'
unfolding act
act-Shrinks e m m' over never p h = ground arith
act-Shrinks e m m' too_long never p h =
    subst (Shrinks m) (ap turned h)
      (record { less = choose-too_long e m m.trs_to_flush refl p; manual = refl })
act-Shrinks e m m' full never p h = cc
act-Shrinks e m m' sleep never p h = ground arith
act-Shrinks e m m' (launch rest r) never p h = launch-Shrinks e m m' rest r p h

-- Without the blocking wait that only tests turn on, flush_next settles on every sequence of readings
-- that is longer than the list of transactions to flush: it returns, raises, or leaves the next call
-- to the IOLoop, and never runs out of readings.
pub flush_next-Settles :
    (es : List Reading) (m : Manager)
    → m.flush_without_ioloop ≡ false
    → waiting m < length es
    → Settles (flush_next es m)
unfolding flush_next
flush_next-Settles [] m never h = absurd (omega arith)
flush_next-Settles (e ∷ es) m never h = settle (flush_next-Settles es) (turn e m) refl
  where
    settle :
        ((m' : Manager)
          → m'.flush_without_ioloop ≡ false
          → waiting m' < length es
          → Settles (flush_next es m'))
        → (t : Turn) → turn e m ≡ t
        → Settles (flush_next (e ∷ es) m)
    settle rec (stop m') p = rw (p, flush_next) tt
    settle rec (scheduled m') p = rw (p, flush_next) tt
    settle rec (failed x m') p = rw (p, flush_next) tt
    settle rec (again m') p =
        let k = act-Shrinks e m m' (choose e m) never refl p in
        rw (p, flush_next) (rec m' (k.manual ∙ never) (omega (arith, k.less)))
