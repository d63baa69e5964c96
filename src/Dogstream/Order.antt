-- ===== src/Dogstream/Order.antt =====
-- checks/datadog.py, point_sorter: Python's order on the keys of points.
use dd_agent.Prelude.{
  ◌≡◌, refl, ap, ltb_ℤ, ◌⊎◌, Option, none, some, [], ◌∷◌, Bool, true, false, not, ◌&&◌, ◌||◌, arith,
  inl, inr,
}
use dd_agent.Prelude.Text.{Text}
use dd_agent.Prelude.{eq_of_parts}
use dd_agent.Aggregator.Base.{lt_text}

-- A strict order in which any two elements that are not ordered are equal.
pub record IsOrder {A : Type 0} (lt : A → A → Bool) : Type 0 where
  pub asym : (x y : A) → lt x y ≡ true → lt y x ≡ false
  pub trans : (x y z : A) → lt y x ≡ false → lt z y ≡ false → lt z x ≡ false
  pub same : (x y : A) → lt x y ≡ false → lt y x ≡ false → x ≡ y

-- None is below every text.
abbrev pub lt_option : {A : Type 0} → (A → A → Bool) → Option A → Option A → Bool
lt_option lt none none = false
lt_option lt none (some y) = true
lt_option lt (some x) none = false
lt_option lt (some x) (some y) = lt x y

-- the order of tuples
abbrev pub lt_pair : {A B : Type 0} → (A → A → Bool) → (B → B → Bool) → A × B → A × B → Bool
lt_pair lt lt' (a, b) (c, d) = lt a c || (not (lt c a) && lt' b d)

lt_text_asym : (x y : Text) → lt_text x y ≡ true → lt_text y x ≡ false
unfolding lt_text
lt_text_asym [] [] h = refl
lt_text_asym [] (d ∷ ds) h = refl
lt_text_asym (c ∷ cs) [] h = cc
lt_text_asym (c ∷ cs) (d ∷ ds) h = ground (arith, lt_text_asym cs ds)

lt_text_trans : (x y z : Text) → lt_text y x ≡ false → lt_text z y ≡ false → lt_text z x ≡ false
unfolding lt_text
lt_text_trans [] [] z h k = k
lt_text_trans [] (d ∷ ds) [] h k = cc
lt_text_trans [] (d ∷ ds) (e ∷ es) h k = refl
lt_text_trans (c ∷ cs) [] z h k = cc
lt_text_trans (c ∷ cs) (d ∷ ds) [] h k = cc
lt_text_trans (c ∷ cs) (d ∷ ds) (e ∷ es) h k = ground (arith, lt_text_trans cs ds es)

lt_text_same : (x y : Text) → lt_text x y ≡ false → lt_text y x ≡ false → x ≡ y
unfolding lt_text
lt_text_same [] [] h k = refl
lt_text_same [] (d ∷ ds) h k = cc
lt_text_same (c ∷ cs) [] h k = cc
lt_text_same (c ∷ cs) (d ∷ ds) h k = ground (arith, lt_text_same cs ds)

pub text_order : IsOrder lt_text
text_order = record { asym = lt_text_asym; trans = lt_text_trans; same = lt_text_same }

pub int_order : IsOrder ltb_ℤ
int_order = record {
  asym = λ x y h. ground arith;
  trans = λ x y z h k. ground arith;
  same = λ x y h k. eq_of_parts x y (ground arith);
}

module _ {A : Type 0} (lt : A → A → Bool) (order : IsOrder lt) where
  lt_option_asym : (x y : Option A) → lt_option lt x y ≡ true → lt_option lt y x ≡ false
  lt_option_asym none none h = cc
  lt_option_asym none (some y) h = refl
  lt_option_asym (some x) none h = cc
  lt_option_asym (some x) (some y) h = order.asym x y h

  lt_option_trans :
      (x y z : Option A)
      → lt_option lt y x ≡ false
      → lt_option lt z y ≡ false
      → lt_option lt z x ≡ false
  lt_option_trans none none z h k = k
  lt_option_trans none (some y) none h k = cc
  lt_option_trans none (some y) (some z) h k = refl
  lt_option_trans (some x) none z h k = cc
  lt_option_trans (some x) (some y) none h k = cc
  lt_option_trans (some x) (some y) (some z) h k = order.trans x y z h k

  lt_option_same : (x y : Option A) → lt_option lt x y ≡ false → lt_option lt y x ≡ false → x ≡ y
  lt_option_same none none h k = refl
  lt_option_same none (some y) h k = cc
  lt_option_same (some x) none h k = cc
  lt_option_same (some x) (some y) h k = ap some (order.same x y h k)

  pub option_order : IsOrder (lt_option lt)
  option_order = record { asym = lt_option_asym; trans = lt_option_trans; same = lt_option_same }

-- Two Booleans of which the first or, unless the other first one is true, the second is true.
either_false : (p q r : Bool) → (p || (not q && r)) ≡ false → (p ≡ false) × (q ≡ false → r ≡ false)
either_false true q r h = cc
either_false false true r h = (refl, (λ e. cc))
either_false false false r h = (refl, (λ e. h))

either_true : (p q r : Bool) → (p || (not q && r)) ≡ true → (p ≡ true) ⊎ ((q ≡ false) × (r ≡ true))
either_true true q r h = inl refl
either_true false true r h = cc
either_true false false r h = inr (refl, h)

is_false : (p q r : Bool) → p ≡ false → (q ≡ false → r ≡ false) → (p || (not q && r)) ≡ false
is_false true q r h k = cc
is_false false true r h k = refl
is_false false false r h k = k refl

module _ {A B : Type 0} (lt : A → A → Bool) (lt' : B → B → Bool) (order : IsOrder lt)
    (order' : IsOrder lt') where
  lt_pair_asym : (x y : A × B) → lt_pair lt lt' x y ≡ true → lt_pair lt lt' y x ≡ false
  lt_pair_asym (a, b) (c, d) h = elim (either_true (lt a c) (lt c a) (lt' b d) h) [
    | inl e ↦ is_false (lt c a) (lt a c) (lt' d b) (order.asym a c e) (λ n. cc)
    | inr (n, e) ↦ is_false (lt c a) (lt a c) (lt' d b) n (λ m. order'.asym b d e)
  ]

  lt_pair_trans :
      (x y z : A × B)
      → lt_pair lt lt' y x ≡ false
      → lt_pair lt lt' z y ≡ false
      → lt_pair lt lt' z x ≡ false
  lt_pair_trans (a, b) (c, d) (e, f) h k =
      let (ca, then_db) = either_false (lt c a) (lt a c) (lt' d b) h in
      let (ec, then_fd) = either_false (lt e c) (lt c e) (lt' f d) k in
      is_false (lt e a) (lt a e) (lt' f b) (order.trans a c e ca ec) (λ ae.
        order'.trans b d f (then_db (order.trans c e a ec ae)) (then_fd (order.trans e a c ae ca)))

  lt_pair_same : (x y : A × B) → lt_pair lt lt' x y ≡ false → lt_pair lt lt' y x ≡ false → x ≡ y
  lt_pair_same (a, b) (c, d) h k =
      let (ac, then_bd) = either_false (lt a c) (lt c a) (lt' b d) h in
      let (ca, then_db) = either_false (lt c a) (lt a c) (lt' d b) k in
      λ i. (order.same a c ac ca i, order'.same b d (then_bd ca) (then_db ac) i)

  pub pair_order : IsOrder (lt_pair lt lt')
  pair_order = record { asym = lt_pair_asym; trans = lt_pair_trans; same = lt_pair_same }
