-- ===== src/NetworkCheck/Window.antt =====
-- checks/network_checks.py, NetworkCheck._process_results: the statuses of one service check of one
-- instance, the window of the latest ones, and when an event is created.
use dd_agent.Prelude.{
  ℕ, suc, ◌≤◌, ◌<◌, ◌≡◌, ◌∙◌, refl, ap, sym, ℤ, pos, negsuc, ltb_ℤ, leb_ℤ, List, [], ◌∷◌, ◌++◌,
  Bool, true, false, leb, ltb, if◌then◌else◌, length, length-append, arith, Bool-cases, inl, inr,
}

pub data Status : Type 0 where
  down warning critical up : Status

abbrev pub is_down : Status → Bool
is_down down = true
is_down _ = false

abbrev pub is_up : Status → Bool
is_up up = true
is_up _ = false

-- list.count(Status.DOWN)
abbrev pub count_down : List Status → ℕ
count_down [] = 0
count_down (s ∷ ss) = if is_down s then suc (count_down ss) else count_down ss

-- The parameters window and threshold of an instance.
pub record Settings : Type 0 where
  pub window : ℤ
  pub threshold : ℤ

-- at most 256
abbrev pub window_of : Settings → ℤ
window_of s = if ltb_ℤ (pos 256) s.window then pos 256 else s.window

-- pop(0) if the list is longer than the window
abbrev pub trim : ℤ → List Status → List Status
trim w [] = []
trim w (s ∷ ss) = if ltb_ℤ w (pos (length (s ∷ ss))) then ss else s ∷ ss

-- The statuses of the window, and what self.notified says, which is UP at first.
pub record Track : Type 0 where
  pub statuses : List Status
  pub notified : Status

-- Is there an event, and what is notified now?
abbrev pub notify : Bool → Status → Bool × Status
notify true notified = if is_down notified then (false, notified) else (true, down)
notify false notified = if is_up notified then (false, notified) else (true, up)

unfoldable pub observe : Settings → Track → Status → Bool × Track
observe c t s =
    let statuses = trim (window_of c) (t.statuses ++ s ∷ []) in
    let (event, notified) = notify (leb_ℤ c.threshold (pos (count_down statuses))) t.notified in
    (event, record { statuses = statuses; notified = notified })

abbrev pub fresh : Track
fresh = record { statuses = []; notified = up }

unfoldable pub observe_all : Settings → Track → List Status → Track
unfolding observe
observe_all c t [] = t
observe_all c t (s ∷ ss) = observe_all c (observe c t s).1 ss

-- The last n of a list, or all of it.
unfoldable pub latest : ℕ → List Status → List Status
latest n [] = []
latest n (s ∷ ss) = let rest = latest n ss in if leb (length (s ∷ ss)) n then s ∷ ss else rest

abbrev pub size_of : ℤ → ℕ
size_of (pos n) = n
size_of (negsuc n) = 0

-- What is to be notified of a window.
abbrev pub level : Settings → List Status → Status
level c ss = if leb_ℤ c.threshold (pos (count_down ss)) then down else up

latest_short : (n : ℕ) (ss : List Status) → length ss ≤ n → latest n ss ≡ ss
unfolding latest
latest_short n [] h = refl
latest_short n (s ∷ ss) h =
    let short : leb (length (s ∷ ss)) n ≡ true = ground arith in rw (short, latest) refl

ltb_size : (w : ℤ) (n : ℕ) → ltb_ℤ w (pos (suc n)) ≡ ltb (size_of w) (suc n)
ltb_size (pos w) n = ground arith
ltb_size (negsuc w) n = ground arith

trim_long : (w : ℤ) (s : Status) (ss : List Status) → size_of w ≤ length ss → trim w (s ∷ ss) ≡ ss
trim_long w s ss h =
    let over : ltb (size_of w) (suc (length ss)) ≡ true = ground arith in
    rw (ltb_size w (length ss)) (rw over refl)

trim_short :
    (w : ℤ) (s : Status) (ss : List Status) → length ss < size_of w → trim w (s ∷ ss) ≡ s ∷ ss
trim_short w s ss h =
    let over : ltb (size_of w) (suc (length ss)) ≡ false = ground arith in
    rw (ltb_size w (length ss)) (rw over refl)

latest_fits : (n : ℕ) (s : Status) (ss : List Status) → length ss < n → latest n (s ∷ ss) ≡ s ∷ ss
unfolding latest
latest_fits n s ss h = let fits : leb (suc (length ss)) n ≡ true = ground arith in rw fits refl

latest_drops :
    (n : ℕ) (s : Status) (ss : List Status) → n ≤ length ss → latest n (s ∷ ss) ≡ latest n ss
unfolding latest
latest_drops n s ss h = let fits : leb (suc (length ss)) n ≡ false = ground arith in rw fits refl

data Order (m n : ℕ) : Type 0 where
  below : suc m < n → Order m n
  just : suc m ≡ n → Order m n
  above : n ≤ m → Order m n

order : (m n : ℕ) → Order m n
order m n = elim (Bool-cases (leb n m)) [
  | inl above_it ↦ above (ground arith)
  | inr not_above ↦ elim (Bool-cases (ltb (suc m) n)) [
    | inl below_it ↦ below (ground arith)
    | inr not_below ↦ just (ground arith)
  ]
]

pub trim-latest :
    (w : ℤ) (ss : List Status) (s : Status)
    → trim w (latest (size_of w) ss ++ s ∷ []) ≡ latest (size_of w) (ss ++ s ∷ [])
unfolding latest
trim-latest w [] s = elim (Bool-cases (leb 1 (size_of w))) [
  | inl fits ↦ trim_short w s [] (ground arith) ∙ sym (latest_fits (size_of w) s [] (ground arith))
  | inr none_fits ↦
      trim_long w s [] (ground arith) ∙ sym (latest_drops (size_of w) s [] (ground arith))
]
trim-latest w (x ∷ ss) s =
    let l = length-append ss (s ∷ []) in
    elim (order (length ss) (size_of w)) [
      | below h ↦
          ap (λ k. trim w (k ++ s ∷ [])) (latest_fits (size_of w) x ss (omega arith))
          ∙ trim_short w x (ss ++ s ∷ []) (omega (arith, l))
          ∙ sym (latest_fits (size_of w) x (ss ++ s ∷ []) (omega (arith, l)))
      | just h ↦
          ap (λ k. trim w (k ++ s ∷ [])) (latest_fits (size_of w) x ss (omega arith))
          ∙ trim_long w x (ss ++ s ∷ []) (omega (arith, l))
          ∙ sym (
              latest_drops (size_of w) x (ss ++ s ∷ []) (omega (arith, l))
              ∙ latest_short (size_of w) (ss ++ s ∷ []) (omega (arith, l)))
      | above h ↦
          ap (λ k. trim w (k ++ s ∷ [])) (latest_drops (size_of w) x ss h)
          ∙ trim-latest w ss s
          ∙ sym (latest_drops (size_of w) x (ss ++ s ∷ []) (omega (arith, l)))
    ]
