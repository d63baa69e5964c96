-- ===== src/Forwarder/Transaction.antt =====
-- transaction.py, class Transaction. Times are whole microseconds since a fixed origin. The number
-- `size` stands for sys.getsizeof of the data, which does not change, so its cache is not kept.
use dd_agent.Prelude.{ℕ, ◌+◌, ◌*◌, ◌/◌, Bool, Option, none, some, ltb, leb, if◌then◌else◌}
use dd_agent.Prelude.Text.{Text}

pub record Transaction : Type 0 where
  pub id : Option ℕ
  pub error_count : ℕ
  pub next_flush : ℕ
  pub size : ℕ
  pub endpoint : Text

abbrev pub second : ℕ
second = 1000000

-- `none` is the AssertionError of a second id.
unfoldable pub set_id : Transaction → ℕ → Option Transaction
set_id t new_id = elim t.id [ none ↦ some (record t { id = some new_id }) | some _ ↦ none ]

unfoldable pub inc_error_count : Transaction → Transaction
inc_error_count t = record t { error_count = t.error_count + 1 }

-- `now` is the reading of the clock.
unfoldable pub compute_next_flush : Transaction → ℕ → ℕ → Transaction
compute_next_flush t max_delay now =
    let td = t.error_count * 20 * second in
    let td' = if ltb max_delay td then max_delay else td in
    record t { next_flush = (now + td') / second * second }

unfoldable pub time_to_flush : Transaction → ℕ → Bool
time_to_flush t now = leb t.next_flush now
