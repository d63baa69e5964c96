-- ===== src/Forwarder/Flush.antt =====
-- transaction.py, class TransactionManager: a flush and the ends of its transactions, and the
-- callback `on_response` of ddagent.py. `flush_next` calls itself last on every branch: one call of
-- it is a `turn`, and the driver repeats turns. What a turn reads of its surroundings is a `Reading`.
use dd_agent.Prelude.{
  ℕ, ◌+◌, Bool, true, false, ◌&&◌, ◌||◌, Option, none, some, List, [], ◌∷◌, ltb, leb, ◌==◌,
  if◌then◌else◌, pos, ◌+ℤ◌, ◌-ℤ◌, ltb_ℤ, eqb_ℤ, keep, length,
}
use mathlib.Core.Logic.{ite}
use mathlib.Core.Option
use dd_agent.Prelude.Sort.{sort}
use dd_agent.Prelude.Dict.{get, put}
use dd_agent.Prelude.Text.{Text, Text-discrete}
use dd_agent.Forwarder.Transaction.{Transaction, inc_error_count, compute_next_flush, time_to_flush}
use dd_agent.Forwarder.Manager.{
  Manager, Outcome, Error, done, raised, type_error, ◌>>=◌, update, discard,
}

pub record Reading : Type 0 where
  -- datetime.utcnow() at the test of the duration, at the throttling, at the start, in tr_error
  pub check : ℕ
  pub throttle : ℕ
  pub start : ℕ
  pub error : ℕ
  -- tr.flush() raised
  pub raises : Bool
  pub ioloop_running : Bool

-- The loop of `tr_error` over the transactions that are still to be flushed.
unfoldable pub divert : Text → ℕ → ℕ → List ℕ → (ℕ → Transaction) → (ℕ → Transaction) × List ℕ
unfolding Text-discrete update compute_next_flush
divert endpoint max_wait now [] heap = (heap, [])
divert endpoint max_wait now (q ∷ qs) heap =
    let same : Bool = ite (Text-discrete (heap q).endpoint endpoint) true false in
    let heap' : ℕ → Transaction =
      if same then update heap q (compute_next_flush (heap q) max_wait now) else heap in
    let (heap'', kept) = divert endpoint max_wait now qs heap' in
    (heap'', if same then kept else q ∷ kept)

-- `for transaction in None` is a TypeError.
unfoldable pub drop_endpoint : Text → ℕ → Manager → Option (List ℕ) → Outcome
unfolding divert
drop_endpoint endpoint now m none = raised type_error m
drop_endpoint endpoint now m (some trs) =
    let (heap, kept) = divert endpoint m.max_wait_for_replay now trs m.objects in
    done (record m { objects = heap; trs_to_flush = some kept })

-- self._endpoints_errors.get(endpoint, 0) + 1
abbrev pub errors_of : Manager → Text → ℕ
errors_of m endpoint = Option.get_or (get Text-discrete m.endpoints_errors endpoint) 0 + 1

-- tr_error up to its test
unfoldable pub note_error : Manager → ℕ → ℕ → Manager
unfolding get put Text-discrete update inc_error_count compute_next_flush
note_error m tr now =
    let t = compute_next_flush (inc_error_count (m.objects tr)) m.max_wait_for_replay now in
    record m {
      running_flushes = m.running_flushes -ℤ pos 1;
      finished_flushes = m.finished_flushes + 1;
      objects = update m.objects tr t;
      endpoints_errors = put Text-discrete m.endpoints_errors t.endpoint (errors_of m t.endpoint);
    }

unfoldable pub tr_error : Manager → ℕ → ℕ → Outcome
unfolding note_error drop_endpoint
tr_error m tr now =
    let endpoint = (m.objects tr).endpoint in
    if errors_of m endpoint == m.max_endpoint_errors
    then drop_endpoint endpoint now (note_error m tr now) m.trs_to_flush
    else done (note_error m tr now)

abbrev pub finish : Manager → Manager
finish m = record m {
  running_flushes = m.running_flushes -ℤ pos 1;
  finished_flushes = m.finished_flushes + 1;
}

abbrev pub count_flushed : Manager → Manager
count_flushed m = record m { transactions_flushed = m.transactions_flushed + 1 }

abbrev pub count_rejected : Manager → Manager
count_rejected m = record m {
  transactions_flushed = m.transactions_flushed + 1;
  transactions_rejected = m.transactions_rejected + 1;
}

unfoldable pub tr_success : Manager → ℕ → Outcome
unfolding discard
tr_success m tr = discard (finish m) tr >>= λ m'. done (count_flushed m')

unfoldable pub tr_error_reject_request : Manager → ℕ → Outcome
unfolding discard update inc_error_count
tr_error_reject_request m tr =
    let m' = finish m in
    discard (record m' { objects = update m.objects tr (inc_error_count (m.objects tr)) }) tr
    >>= λ m''. done (count_rejected m'')

-- on_response(response), without the flush_next() at its end
pub record Response : Type 0 where
  pub error : Bool
  pub code : ℕ

unfoldable pub on_response : Manager → ℕ → Response → ℕ → Outcome
unfolding tr_success tr_error tr_error_reject_request
on_response m tr r now =
    if r.error
    then (if r.code == 413 || r.code == 400
        then tr_error_reject_request m tr
        else tr_error m tr now)
    else tr_success m tr

-- list.pop() on a list with a first element
unfoldable pub pop : ℕ → List ℕ → List ℕ × ℕ
pop x [] = ([], x)
pop x (y ∷ ys) = let (rest, last) = pop y ys in (x ∷ rest, last)

-- The branch that a call of flush_next takes.
pub data Choice : Type 0 where
  over too_long full sleep : Choice
  launch : List ℕ → ℕ → Choice

unfoldable pub choose : Reading → Manager → Choice
unfolding pop
choose e m = elim m.trs_to_flush [
  | none ↦ over
  | some [] ↦ over
  | some (x ∷ xs) ↦
      if leb (m.flush_time + m.max_flush_duration) e.check
      then too_long
      else if leb (m.last_flush + m.throttling_delay) e.throttle
          && ltb_ℤ m.running_flushes (pos m.max_parallelism)
      then (let (rest, tr) = pop x xs in launch rest tr)
      else if ltb_ℤ m.running_flushes (pos m.max_parallelism)
      then sleep
      else full
]

-- `again` calls flush_next at once, `scheduled` has the IOLoop call it later.
pub data Turn : Type 0 where
  stop again scheduled : Manager → Turn
  failed : Error → Manager → Turn

abbrev pub then_again : Outcome → Turn
then_again (done m) = again m
then_again (raised e m) = failed e m

abbrev pub launched : Reading → Manager → List ℕ → Manager
launched e m rest = record m {
  trs_to_flush = some rest;
  running_flushes = m.running_flushes +ℤ pos 1;
  last_flush = e.start;
}

unfoldable pub act : Reading → Manager → Choice → Turn
unfolding tr_error
act e m over =
    if eqb_ℤ m.running_flushes (pos 0) then stop (record m { trs_to_flush = none }) else stop m
act e m too_long = again (record m { trs_to_flush = some [] })
act e m full = stop m
act e m sleep =
    if e.ioloop_running then scheduled m else if m.flush_without_ioloop then again m else stop m
act e m (launch rest tr) =
    if e.raises
    then then_again (tr_error (launched e m rest) tr e.error)
    else again (launched e m rest)

unfoldable pub turn : Reading → Manager → Turn
unfolding choose act
turn e m = act e m (choose e m)

-- flush_next(), with a reading for each call that it makes of itself
unfoldable pub flush_next : List Reading → Manager → Turn
unfolding turn
flush_next [] m = again m
flush_next (e ∷ es) m = elim (turn e m) [
  | again m' ↦ flush_next es m'
  | stop m' ↦ stop m'
  | scheduled m' ↦ scheduled m'
  | failed x m' ↦ failed x m'
]

-- Python's order on ids, with None below every number
abbrev pub lt_id : Option ℕ → Option ℕ → Bool
lt_id none none = false
lt_id none (some b) = true
lt_id (some a) none = false
lt_id (some a) (some b) = ltb a b

-- sorted(to_flush, key=lambda tr: (- tr._error_count, tr._id))
abbrev pub flushed_later : (ℕ → Transaction) → ℕ → ℕ → Bool
flushed_later heap r q =
    let a = heap r in
    let b = heap q in
    ltb b.error_count a.error_count || (a.error_count == b.error_count && lt_id a.id b.id)

abbrev pub due : Manager → ℕ → List ℕ
due m now = keep (λ r. time_to_flush (m.objects r) now) m.transactions

abbrev pub count_flush : Turn → Turn
count_flush (stop m) = stop (record m { flush_count = m.flush_count + 1 })
count_flush (again m) = again (record m { flush_count = m.flush_count + 1 })
count_flush (scheduled m) = scheduled (record m { flush_count = m.flush_count + 1 })
count_flush (failed e m) = failed e m

-- what flush() writes before it calls flush_next()
unfoldable pub prepare : ℕ → ℕ → Manager → Manager
unfolding sort time_to_flush
prepare now flush_time m = record m {
  endpoints_errors = [];
  finished_flushes = 0;
  trs_to_flush = some (sort (flushed_later m.objects) (due m now));
  flush_time = flush_time;
}

unfoldable pub flush : ℕ → ℕ → List Reading → Manager → Turn
unfolding flush_next prepare
flush now flush_time es m = elim m.trs_to_flush [
  | some _ ↦ stop m
  | none ↦
      count_flush
        (if length (due m now) == 0 then stop m else flush_next es (prepare now flush_time m))
]
