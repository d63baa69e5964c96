-- ===== src/NetworkCheck/Levels.antt =====
-- checks/network_checks.py, NetworkCheck._process_results: what the window says and when it is told.
use mathlib.Core.Path.{subst}
use mathlib.Core.List.{append-nil, append_assoc}
use dd_agent.Prelude.{
  ℕ, ◌+◌, ◌≤◌, ◌≡◌, ◌∙◌, ◌⊎◌, refl, ap, sym, ℤ, pos, leb_ℤ, List, [], ◌∷◌, ◌++◌, Bool, true, false,
  if◌then◌else◌, arith, Bool-cases, inl, inr,
}
use dd_agent.NetworkCheck.Window.{
  Status, down, warning, critical, up, is_down, count_down, Settings, window_of, trim, Track,
  notify, observe, fresh, observe_all, latest, size_of, level, trim-latest,
}

notify_lem : (b : Bool) (n : Status) → (notify b n).1 ≡ (if b then down else up)
notify_lem true down = refl
notify_lem true warning = refl
notify_lem true critical = refl
notify_lem true up = refl
notify_lem false down = refl
notify_lem false warning = refl
notify_lem false critical = refl
notify_lem false up = refl

-- The window of a history.
abbrev pub window_on : Settings → List Status → List Status
window_on c ss = latest (size_of (window_of c)) ss

abbrev pub track_of : Settings → List Status → Track
track_of c ss = record { statuses = window_on c ss; notified = level c (window_on c ss) }

observe-statuses :
    (c : Settings) (t : Track) (ss : List Status) (s : Status)
    → t.statuses ≡ window_on c ss
    → (observe c t s).1 ≡ track_of c (ss ++ s ∷ [])
unfolding observe
observe-statuses c t ss s e =
    let w : trim (window_of c) (t.statuses ++ s ∷ []) ≡ window_on c (ss ++ s ∷ []) =
      ap (λ k. trim (window_of c) (k ++ s ∷ [])) e ∙ trim-latest (window_of c) ss s in
    ap
      (λ k. record {
        statuses = k;
        notified = (notify (leb_ℤ c.threshold (pos (count_down k))) t.notified).1;
      })
      w
    ∙ ap (λ n. record { statuses = window_on c (ss ++ s ∷ []); notified = n })
        (notify_lem (leb_ℤ c.threshold (pos (count_down (window_on c (ss ++ s ∷ []))))) t.notified)

observe_all-append :
    (c : Settings) (t : Track) (xs ys : List Status)
    → observe_all c t (xs ++ ys) ≡ observe_all c (observe_all c t xs) ys
unfolding observe_all
observe_all-append c t [] ys = refl
observe_all-append c t (x ∷ xs) ys = observe_all-append c (observe c t x).1 xs ys

observe_all-statuses :
    (c : Settings) (t : Track) (before ss : List Status)
    → t.statuses ≡ window_on c before
    → (observe_all c t ss).statuses ≡ window_on c (before ++ ss)
unfolding observe_all
observe_all-statuses c t before [] e = e ∙ ap (window_on c) (sym (append-nil before))
observe_all-statuses c t before (s ∷ ss) e =
    observe_all-statuses c (observe c t s).1 (before ++ s ∷ []) ss
      (ap (λ k. k.statuses) (observe-statuses c t before s e))
    ∙ ap (window_on c) (append_assoc before (s ∷ []) ss)

-- After any results of a service check whose window and threshold stay the same, the list kept is
-- that of the latest ones, as many as the window has room for (256 at most), and what is notified
-- is DOWN if at least the threshold of these are DOWN, and UP otherwise, whatever was notified on
-- the way.
pub observe_all-latest :
    (c : Settings) (ss : List Status) (s : Status)
    → observe_all c fresh (ss ++ s ∷ []) ≡ track_of c (ss ++ s ∷ [])
unfolding observe_all latest
observe_all-latest c ss s =
    observe_all-append c fresh ss (s ∷ [])
    ∙ observe-statuses c (observe_all c fresh ss) ss s (observe_all-statuses c fresh [] ss refl)

count_down-append : (xs ys : List Status) → count_down (xs ++ ys) ≡ count_down xs + count_down ys
count_down-append [] ys = omega arith
count_down-append (x ∷ xs) ys = ground (arith, count_down-append xs ys)

count_rises :
    (w : ℤ) (ss : List Status) (s : Status)
    → is_down s ≡ true
    → count_down ss ≤ count_down (trim w (ss ++ s ∷ []))
count_rises w [] s e = omega arith
count_rises w (x ∷ ss) s e = ground (arith, count_down-append ss (s ∷ []))

count_falls :
    (w : ℤ) (ss : List Status) (s : Status)
    → is_down s ≡ false
    → count_down (trim w (ss ++ s ∷ [])) ≤ count_down ss
count_falls w [] s e = ground arith
count_falls w (x ∷ ss) s e = ground (arith, count_down-append ss (s ∷ []))

Snoc-cases :
    (ss : List Status)
    → (ss ≡ []) ⊎ ((before : List Status) × (s : Status) × (ss ≡ before ++ s ∷ []))
Snoc-cases [] = inl refl
Snoc-cases (s ∷ ss) = elim (Snoc-cases ss) [
  | inl e ↦ inr ([], s, ap (◌∷◌ s) e)
  | inr (before, r, e) ↦ inr (s ∷ before, r, ap (◌∷◌ s) e)
]

-- Nothing is notified before the first result.
track_lem :
    (c : Settings) (ss : List Status)
    → leb_ℤ (pos 1) c.threshold ≡ true
    → observe_all c fresh ss ≡ track_of c ss
unfolding observe_all latest
track_lem c ss h = elim (Snoc-cases ss) [
  | inl e ↦
      let quiet : leb_ℤ c.threshold (pos 0) ≡ false = ground arith in
      ap (observe_all c fresh) e
      ∙ ap (λ n. record { statuses = []; notified = n }) (sym (rw quiet refl))
      ∙ ap (track_of c) (sym e)
  | inr (before, s, e) ↦
      ap (observe_all c fresh) e ∙ observe_all-latest c before s ∙ ap (track_of c) (sym e)
]

level_clash : (t : ℤ) {m n : ℕ} → m ≤ n → leb_ℤ t (pos m) ≡ true → leb_ℤ t (pos n) ≡ false → ⊥
level_clash t h above below = ground arith

-- What is notified changes with the result s: to DOWN with a DOWN, to UP with another one.
abbrev pub Changes : Settings → Track → Status → Type 0
Changes c t s =
    ((is_down s ≡ true) × (t.notified ≡ up) × ((observe c t s).1.notified ≡ down))
    ⊎ ((is_down s ≡ false) × (t.notified ≡ down) × ((observe c t s).1.notified ≡ up))

abbrev Tells : Settings → Track → Status → Type 0
Tells c t s =
    ((observe c t s).0 ≡ true → Changes c t s)
    × ((observe c t s).0 ≡ false → (observe c t s).1.notified ≡ t.notified)

track_of-Tells : (c : Settings) (ss : List Status) (s : Status) → Tells c (track_of c ss) s
unfolding observe
track_of-Tells c ss s =
    let before = window_on c ss in
    let after = trim (window_of c) (before ++ s ∷ []) in
    elim (Bool-cases (leb_ℤ c.threshold (pos (count_down before)))) [
      | inl was ↦ elim (Bool-cases (leb_ℤ c.threshold (pos (count_down after)))) [
        | inl is ↦ rw was (rw is ((λ e. cc), (λ e. refl)))
        | inr isnt ↦ elim (Bool-cases (is_down s)) [
          | inl d ↦ absurd (level_clash c.threshold (count_rises (window_of c) before s d) was isnt)
          | inr u ↦ rw was (rw isnt ((λ e. inr (u, refl, refl)), (λ e. cc)))
        ]
      ]
      | inr wasnt ↦ elim (Bool-cases (leb_ℤ c.threshold (pos (count_down after)))) [
        | inl is ↦ elim (Bool-cases (is_down s)) [
          | inl d ↦ rw wasnt (rw is ((λ e. inl (d, refl, refl)), (λ e. cc)))
          | inr u ↦ absurd (level_clash c.threshold (count_falls (window_of c) before s u) is wasnt)
        ]
        | inr isnt ↦ rw wasnt (rw isnt ((λ e. cc), (λ e. refl)))
      ]
    ]

-- With a threshold of one or more, a result for which an event is created changes what is notified:
-- from UP to DOWN, and then the result is DOWN, or from DOWN to UP, and then it is another; a result
-- without an event leaves it. So the events of a service check alternate, and none of them has the
-- status opposite to what it tells.
pub observe-Changes :
    (c : Settings) (ss : List Status) (s : Status)
    → leb_ℤ (pos 1) c.threshold ≡ true
    → ((observe c (observe_all c fresh ss) s).0 ≡ true → Changes c (observe_all c fresh ss) s)
      × ((observe c (observe_all c fresh ss) s).0 ≡ false
          → (observe c (observe_all c fresh ss) s).1.notified ≡ (observe_all c fresh ss).notified)
observe-Changes c ss s h = subst (λ t. Tells c t s) (sym (track_lem c ss h)) (track_of-Tells c ss s)
