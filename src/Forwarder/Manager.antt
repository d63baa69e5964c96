-- ===== src/Forwarder/Manager.antt =====
-- transaction.py, class TransactionManager: its state and `append`. Transactions are objects that
-- the queue and the running flush share: a reference is an address in `objects`.
use dd_agent.Prelude.{
  ℕ, ◌+◌, Bool, true, false, Option, none, some, List, [], ◌∷◌, ◌++◌, ltb, ◌==◌, if◌then◌else◌, ℤ,
  pos, ◌+ℤ◌, ◌-ℤ◌, ltb_ℤ,
}
use dd_agent.Prelude.Sort.{sort}
use dd_agent.Prelude.Dict.{Dict}
use dd_agent.Prelude.Text.{Text}
use dd_agent.Forwarder.Transaction.{Transaction, set_id}

-- the fields that no method writes after __init__
pub record Limits : Type 0 where
  pub max_wait_for_replay : ℕ
  pub max_queue_size : ℕ
  pub throttling_delay : ℕ
  pub max_parallelism : ℕ
  pub max_endpoint_errors : ℕ
  pub max_flush_duration : ℕ
  pub flush_without_ioloop : Bool

pub record Manager : Type 0 where
  pub limits : Limits
  pub open limits use *
  pub objects : ℕ → Transaction
  pub transactions : List ℕ
  pub total_count : ℤ
  pub total_size : ℤ
  pub flush_count : ℕ
  pub running_flushes : ℤ
  pub transactions_received : ℕ
  pub transactions_flushed : ℕ
  pub transactions_rejected : ℕ
  pub counter : ℕ
  pub trs_to_flush : Option (List ℕ)
  pub last_flush : ℕ
  pub flush_time : ℕ
  pub endpoints_errors : Dict Text ℕ
  pub finished_flushes : ℕ

pub data Error : Type 0 where
  assertion_error value_error type_error : Error

-- What was written before an exception stays written.
pub data Outcome : Type 0 where
  done : Manager → Outcome
  raised : Error → Manager → Outcome

infixl 5 ◌>>=◌
abbrev pub ◌>>=◌ : Outcome → (Manager → Outcome) → Outcome
done m >>= f = f m
raised e m >>= f = raised e m

-- __init__
unfoldable pub init : Limits → (ℕ → Transaction) → ℕ → Manager
init l heap now = record {
  limits = l;
  objects = heap;
  transactions = [];
  total_count = pos 0;
  total_size = pos 0;
  flush_count = 0;
  running_flushes = pos 0;
  transactions_received = 0;
  transactions_flushed = 0;
  transactions_rejected = 0;
  counter = 0;
  trs_to_flush = none;
  last_flush = now;
  flush_time = now;
  endpoints_errors = [];
  finished_flushes = 0;
}

-- a write to the object at an address
unfoldable pub update : (ℕ → Transaction) → ℕ → Transaction → ℕ → Transaction
update heap r t q = if r == q then t else heap q

-- list.remove: the first occurrence, or ValueError
unfoldable pub remove : ℕ → List ℕ → Option (List ℕ)
remove r [] = none
remove r (q ∷ qs) =
    if q == r then some qs else elim (remove r qs) [ none ↦ none | some qs' ↦ some (q ∷ qs') ]

-- `self._transactions.remove(tr)` and the two counters after it
unfoldable pub discard : Manager → ℕ → Outcome
unfolding remove
discard m r = elim (remove r m.transactions) [
  | none ↦ raised value_error m
  | some rest ↦ done (record m {
    transactions = rest;
    total_count = m.total_count -ℤ pos 1;
    total_size = m.total_size -ℤ pos (m.objects r).size;
  })
]

-- sorted(transactions, key=_next_flush, reverse=True)
abbrev pub later : (ℕ → Transaction) → ℕ → ℕ → Bool
later heap r q = ltb (heap q).next_flush (heap r).next_flush

abbrev pub too_big : Manager → ℕ → Bool
too_big m tr_size = ltb_ℤ (pos m.max_queue_size) (m.total_size +ℤ pos tr_size)

-- the loop over `new_trs`
unfoldable pub evict : ℕ → List ℕ → Manager → Outcome
unfolding discard
evict tr_size [] m = done m
evict tr_size (tr2 ∷ new_trs) m = elim (too_big m tr_size) [
  | true ↦ discard m tr2 >>= evict tr_size new_trs
  | false ↦ evict tr_size new_trs m
]

abbrev pub make_room : ℕ → Manager → Outcome
make_room tr_size m =
    if too_big m tr_size then evict tr_size (sort (later m.objects) m.transactions) m else done m

-- the lines below "Done"
unfoldable pub enqueue : ℕ → ℕ → Manager → Manager
enqueue r tr_size m = record m {
  transactions = m.transactions ++ r ∷ [];
  total_count = m.total_count +ℤ pos 1;
  transactions_received = m.transactions_received + 1;
  total_size = m.total_size +ℤ pos tr_size;
}

-- append(tr), for the transaction at the address `r`
unfoldable pub append : Manager → ℕ → Outcome
unfolding evict enqueue update sort set_id
append m r =
    let m' = record m { counter = m.counter + 1 } in
    elim (set_id (m.objects r) (m.counter + 1)) [
      | none ↦ raised assertion_error m'
      | some t ↦
          let tr_size = t.size in
          make_room tr_size (record m' { objects = update m.objects r t }) >>= λ m''.
          done (enqueue r tr_size m'')
    ]
