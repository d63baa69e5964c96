-- ===== src/Tests/Forwarder.antt =====
-- transaction.py: a queue of two transactions, of which one has failed twice.
use mathlib.Core.List.{Perm, Mem}
use dd_agent.Prelude.{
  ℕ, ◌+◌, ◌*◌, ◌≤◌, ◌<◌, ◌%◌, ◌≡◌, refl, false, none, some, List, [], ◌∷◌, ◌++◌, ◌⊎◌, pos, ◌+ℤ◌,
  ◌-ℤ◌, ◌≤ℤ◌, All, arith, if◌then◌else◌, ◌==◌, keep, not, min, length,
}
use mathlib.Core.Logic.{ite}
use mathlib.Core.Option
use dd_agent.Prelude.Dict.{get}
use dd_agent.Prelude.Text.{Text, Text-discrete, codes}
use dd_agent.Prelude.Sort.{sort}
use dd_agent.Forwarder.Transaction.{Transaction, second, compute_next_flush, time_to_flush, set_id}
use dd_agent.Forwarder.Manager.{
  Limits, Manager, done, raised, value_error, init, update, remove, discard, evict, enqueue, append,
  too_big,
}
use dd_agent.Forwarder.Flush.{
  Reading, Response, choose, turn, act, pop, prepare, due, lt_id, flush, flush_next, tr_error,
  tr_success, on_response, finish,
}
use dd_agent.Forwarder.Queue.{IsAccounted, left_by}
use dd_agent.Forwarder.Eviction.{append_bounded, append_evicts_latest}
use dd_agent.Forwarder.Events.{
  State, Reach, here, next, appends, flushes, turns, answers, start, turned, sends,
}
use dd_agent.Forwarder.Parallelism.{IsThrottled, Reach-IsThrottled}
use dd_agent.Forwarder.Books.{IsBooked}
use dd_agent.Forwarder.Accounting.{Reach-IsBooked}
use dd_agent.Forwarder.Order.{compute_next_flush_bounds, flush_sends_newest}
use dd_agent.Forwarder.Endings.{to_endpoint, tr_error-drops_endpoint, tr_success-cases}
use dd_agent.Forwarder.Termination.{Settles, flush_next-Settles}
use dd_agent.Forwarder.Prompt.{Delivers}
use dd_agent.Forwarder.Drain.{flush_drains}

abbrev limits : Limits
limits = record {
  max_wait_for_replay = 90 * second;
  max_queue_size = 100;
  throttling_delay = 0;
  max_parallelism = 1;
  max_endpoint_errors = 1;
  max_flush_duration = 10 * second;
  flush_without_ioloop = false;
}

-- At address 3 stands a transaction that append has not seen.
abbrev heap : ℕ → Transaction
heap q =
    if q == 1
    then record { id = some 1; error_count = 0; next_flush = 4; size = 30; endpoint = codes "a" }
    else if q == 2
    then record { id = some 2; error_count = 2; next_flush = 6; size = 50; endpoint = codes "a" }
    else record { id = none; error_count = 0; next_flush = 5; size = 40; endpoint = codes "a" }

abbrev two : Manager
two = record {
  limits = limits;
  objects = heap;
  transactions = 1 ∷ 2 ∷ [];
  total_count = pos 2;
  total_size = pos 80;
  flush_count = 0;
  running_flushes = pos 0;
  transactions_received = 2;
  transactions_flushed = 0;
  transactions_rejected = 0;
  counter = 2;
  trs_to_flush = none;
  last_flush = 0;
  flush_time = 0;
  endpoints_errors = [];
  finished_flushes = 0;
}

abbrev busy : Manager
busy = record two { trs_to_flush = some (2 ∷ 1 ∷ []) }

abbrev reading : Reading
reading = record {
  check = 7;
  throttle = 7;
  start = 7;
  error = 8;
  raises = false;
  ioloop_running = false;
}

two-IsAccounted : IsAccounted two
two-IsAccounted = record { counted = refl; sized = refl }

program : Unit {0}
unfolding init append evict discard remove enqueue update sort set_id flush flush_next turn choose
    act pop prepare time_to_flush on_response tr_success ◌+ℤ◌ ◌-ℤ◌
program = tt

-- The transaction that has failed, and is to wait longest, leaves the queue.
append_test : (left_by (append two 3)).transactions ≡ 1 ∷ 3 ∷ []
unfolding program
append_test = refl

append_bounded_example :
    (m' : Manager) × (append two 3 ≡ done m')
    × ((m'.total_size ≤ℤ pos m'.max_queue_size) ⊎ (m'.transactions ≡ 3 ∷ []))
append_bounded_example = append_bounded two 3 two-IsAccounted refl

append_evicts_latest_example :
    (m' : Manager) × (evicted : List ℕ) × (left : List ℕ) × (append two 3 ≡ done m')
    × Perm (1 ∷ 2 ∷ []) (evicted ++ left)
    × (m'.transactions ≡ left ++ 3 ∷ [])
    × All (λ e. All (λ k. (m'.objects k).next_flush ≤ (m'.objects e).next_flush) left) evicted
    × (too_big two 40 ≡ false → evicted ≡ [])
append_evicts_latest_example = append_evicts_latest two 3 two-IsAccounted refl

-- A new manager appends a transaction, starts a flush, sends the request and gets the answer.
abbrev new : State
new = start limits heap 0

abbrev arrival : Transaction
arrival = heap 3

abbrev arrived : State
arrived = record new {
  manager =
      left_by (append (record new.manager { objects = update new.manager.objects 3 arrival }) 3);
}

abbrev flushing : State
flushing = record arrived { manager = turned (flush 7 7 [] arrived.manager) }

abbrev sent : State
sent = record {
  manager = turned (turn reading flushing.manager);
  flying = sends reading (choose reading flushing.manager) flushing.flying;
}

abbrev fine : Response
fine = record { error = false; code = 200 }

abbrev answered : State
answered = record { manager = left_by (on_response sent.manager 3 fine 9); flying = [] }

arrives : Reach new arrived
unfolding program
arrives = next here (appends new 3 arrival tt)

sends_one : sent.flying ≡ 3 ∷ []
unfolding program
sends_one = refl

reaches_sent : Reach new sent
unfolding program
reaches_sent = next (next arrives (flushes arrived 7 7)) (turns flushing reading)

reaches_answered : Reach new answered
unfolding program
reaches_answered = next reaches_sent (answers sent [] [] 3 fine 9 sends_one)

answered_test :
    (answered.manager.total_count ≡ pos 0)
    × (answered.manager.total_size ≡ pos 0)
    × (answered.manager.transactions_flushed ≡ 1)
unfolding program
answered_test = (refl, refl, refl)

Reach-IsThrottled_example : IsThrottled sent.manager sent.flying
Reach-IsThrottled_example = Reach-IsThrottled limits heap 0 reaches_sent

Reach-IsBooked_example : IsBooked answered.manager
Reach-IsBooked_example = Reach-IsBooked limits heap 0 reaches_answered

compute_next_flush_bounds_example :
    ((compute_next_flush (heap 2) (90 * second) 7).next_flush
      ≤ 7 + min (2 * 20 * second) (90 * second))
    × (7 + min (2 * 20 * second) (90 * second)
        < (compute_next_flush (heap 2) (90 * second) 7).next_flush + second)
    × ((compute_next_flush (heap 2) (90 * second) 7).next_flush % second ≡ 0)
compute_next_flush_bounds_example = compute_next_flush_bounds (heap 2) (90 * second) 7

flush_sends_newest_example :
    Perm (1 ∷ 2 ∷ []) (due two 7)
    × All
        (λ q.
          ((heap 1).error_count < (heap q).error_count)
          ⊎ (((heap 1).error_count ≡ (heap q).error_count)
              × (lt_id (heap 1).id (heap q).id ≡ false)))
        (2 ∷ [])
unfolding program
flush_sends_newest_example = flush_sends_newest reading two 7 7 (2 ∷ []) 1 refl

tr_error-drops_endpoint_example :
    (m' : Manager) × (tr_error busy 1 9 ≡ done m')
    × (m'.trs_to_flush
        ≡ some (
            if Option.get_or (get Text-discrete busy.endpoints_errors (codes "a")) 0 + 1 == 1
            then keep (λ q. not (to_endpoint (codes "a") heap q)) (2 ∷ 1 ∷ [])
            else 2 ∷ 1 ∷ []))
    × ((e : Text)
        → get Text-discrete m'.endpoints_errors e
          ≡ ite
              (Text-discrete (codes "a") e)
              (some (Option.get_or (get Text-discrete busy.endpoints_errors (codes "a")) 0 + 1))
              (get Text-discrete busy.endpoints_errors e))
    × (m'.running_flushes ≡ busy.running_flushes -ℤ pos 1)
    × (m'.finished_flushes ≡ busy.finished_flushes + 1)
    × (m'.transactions ≡ busy.transactions)
tr_error-drops_endpoint_example = tr_error-drops_endpoint busy 1 9 (2 ∷ 1 ∷ []) refl

-- tr_success of a transaction that append has evicted
tr_success_test :
    tr_success (record two { transactions = 1 ∷ [] }) 2
    ≡ raised value_error (finish (record two { transactions = 1 ∷ [] }))
unfolding tr_success discard remove
tr_success_test = refl

tr_success-cases_example :
    (Mem {A = ℕ} 1 (1 ∷ 2 ∷ [])
      → (m' : Manager) × (tr_success two 1 ≡ done m')
        × Perm (1 ∷ 2 ∷ []) (1 ∷ m'.transactions)
        × (m'.total_count ≡ two.total_count -ℤ pos 1)
        × (m'.total_size ≡ two.total_size -ℤ pos (heap 1).size)
        × (m'.transactions_flushed ≡ two.transactions_flushed + 1)
        × (m'.transactions_rejected ≡ two.transactions_rejected)
        × (m'.running_flushes ≡ two.running_flushes -ℤ pos 1)
        × (m'.finished_flushes ≡ two.finished_flushes + 1)
        × (m'.trs_to_flush ≡ two.trs_to_flush))
    × (¬ Mem {A = ℕ} 1 (1 ∷ 2 ∷ []) → tr_success two 1 ≡ raised value_error (finish two))
tr_success-cases_example = tr_success-cases two 1

flush_next-Settles_example : Settles (flush_next (reading ∷ reading ∷ reading ∷ []) busy)
flush_next-Settles_example =
    flush_next-Settles (reading ∷ reading ∷ reading ∷ []) busy refl (omega arith)

-- The state in which the manager stands with no request in flight.
abbrev waiting : State
waiting = record { manager = two; flying = [] }

flush_drains_example :
    (t : State) × Delivers (record waiting { manager = turned (flush 5 5 [] two) }) t
    × (t.manager.trs_to_flush ≡ none)
    × (t.flying ≡ [])
    × Perm t.manager.transactions (keep (λ r. not (time_to_flush (heap r) 5)) (1 ∷ 2 ∷ []))
    × (t.manager.transactions_flushed
        ≡ two.transactions_flushed + length (keep (λ r. time_to_flush (heap r) 5) (1 ∷ 2 ∷ [])))
    × (t.manager.transactions_rejected ≡ two.transactions_rejected)
unfolding program
flush_drains_example =
    flush_drains waiting 5 5 refl refl refl (omega arith) (omega arith) (omega arith)
