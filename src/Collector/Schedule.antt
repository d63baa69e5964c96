-- ===== src/Collector/Schedule.antt =====
-- When metadata are sent, over the runs of the collector.
use dd_agent.Prelude.{
  ℕ, ℤ, pos, ◌+ℤ◌, ◌≤ℤ◌, +ℤ_parts, -ℤ_parts, ◌≡◌, refl, sym, List, [], ◌∷◌, Bool, true, false,
  arith, Bool-cases, inl, inr,
}
use mathlib.Core.Path.{subst}
use mathlib.Core.Logic.{ite, if_pos, if_neg}
use dd_agent.Collector.Intervals.{
  Sent, Sent-discrete, PushTime, PushTimes, is_first_run, passed, should_send,
}

-- The calls for one kind of metadata among calls for all kinds, each with its clock: when they were
-- made and what they returned.
unfoldable pub answers : ℕ → Sent → List (ℕ × Sent) → PushTimes → List (ℕ × Bool)
answers n d [] times = []
answers n d ((now, e) ∷ calls) times =
    let rest = answers n d calls (should_send n now e times).1 in
    ite (Sent-discrete e d) ((now, (should_send n now e times).0) ∷ rest) rest

-- true exactly when the interval has passed since the last true, or since the start.
abbrev pub IsScheduled : ℤ → ℕ → List (ℕ × Bool) → Type 0
IsScheduled start interval [] = Unit
IsScheduled start interval ((now, true) ∷ rest) =
    (start +ℤ pos interval ≤ℤ pos now) × IsScheduled (pos now) interval rest
IsScheduled start interval ((now, false) ∷ rest) =
    (¬ (start +ℤ pos interval ≤ℤ pos now)) × IsScheduled start interval rest

passed_iff : (now : ℕ) (t : PushTime) → passed now t ≡ true → t.start +ℤ pos t.interval ≤ℤ pos now
passed_iff now t h = ground (arith, +ℤ_parts t.start (pos t.interval), -ℤ_parts (pos now) t.start)

passed_not :
    (now : ℕ) (t : PushTime) → passed now t ≡ false → ¬ (t.start +ℤ pos t.interval ≤ℤ pos now)
passed_not now t h k = ground (arith, +ℤ_parts t.start (pos t.interval), -ℤ_parts (pos now) t.start)

sent_now :
    (n now : ℕ) (d : Sent) (times : PushTimes)
    → is_first_run n ≡ false
    → passed now (times d) ≡ true
    → ((should_send n now d times).0 ≡ true)
      × ((should_send n now d times).1 d ≡ record (times d) { start = pos now })
unfolding should_send
sent_now n now d times f t = (
  rw (f, t) refl,
  rw (f, t) (if_pos (Sent-discrete d d) refl (record (times d) { start = pos now }) (times d)),
)

not_sent :
    (n now : ℕ) (d : Sent) (times : PushTimes)
    → is_first_run n ≡ false
    → passed now (times d) ≡ false
    → should_send n now d times ≡ (false, times)
unfolding should_send
not_sent n now d times f t = rw (f, t) refl

other_kept :
    (n now : ℕ) (d e : Sent) (times : PushTimes)
    → ¬ (e ≡ d)
    → (should_send n now e times).1 d ≡ times d
unfolding should_send
other_kept n now d e times h = elim (Bool-cases (is_first_run n)) [
  | inl f ↦ rw f refl
  | inr f ↦ elim (Bool-cases (passed now (times e))) [
    | inl t ↦
        rw (f, t) (if_neg (Sent-discrete e d) h (record (times d) { start = pos now }) (times d))
    | inr t ↦ rw (f, t) refl
  ]
]

-- A call for the kind itself.
own_call :
    (n now : ℕ) (d : Sent) (calls : List (ℕ × Sent)) (times : PushTimes)
    → is_first_run n ≡ false
    → ((t : PushTimes) → IsScheduled (t d).start (t d).interval (answers n d calls t))
    → IsScheduled (times d).start (times d).interval (answers n d ((now, d) ∷ calls) times)
unfolding answers
own_call n now d calls times f ih = elim (Bool-cases (passed now (times d))) [
  | inl t ↦
      let (a, b) = sent_now n now d times f t in
      rw
        (
          if_pos (Sent-discrete d d) refl
              ((now, (should_send n now d times).0)
                ∷ answers n d calls (should_send n now d times).1)
              (answers n d calls (should_send n now d times).1),
          a,
        )
        (
          passed_iff now (times d) t,
          subst
              (λ (x : PushTime).
                IsScheduled x.start x.interval (answers n d calls (should_send n now d times).1))
              b (ih (should_send n now d times).1),
        )
  | inr t ↦
      rw
        (
          if_pos (Sent-discrete d d) refl
              ((now, (should_send n now d times).0)
                ∷ answers n d calls (should_send n now d times).1)
              (answers n d calls (should_send n now d times).1),
          not_sent n now d times f t,
        )
        (passed_not now (times d) t, ih times)
]

-- After the first run, among any calls for all kinds of metadata, those for one kind return true
-- exactly when its interval has passed since the last call that did, or since its start.
pub answers-IsScheduled :
    (n : ℕ) (d : Sent) (calls : List (ℕ × Sent)) (times : PushTimes)
    → is_first_run n ≡ false
    → IsScheduled (times d).start (times d).interval (answers n d calls times)
unfolding answers
answers-IsScheduled n d [] times f = tt
answers-IsScheduled n d ((now, e) ∷ calls) times f = elim (Sent-discrete e d) [
  | yes p ↦
      subst
        (λ x. IsScheduled (times d).start (times d).interval (answers n d ((now, x) ∷ calls) times))
        (sym p) (own_call n now d calls times f (λ t. answers-IsScheduled n d calls t f))
  | no q ↦ rw (if_neg (Sent-discrete e d) q) (
      subst
        (λ (x : PushTime).
          IsScheduled x.start x.interval (answers n d calls (should_send n now e times).1))
        (other_kept n now d e times q)
        (answers-IsScheduled n d calls (should_send n now e times).1 f))
]
