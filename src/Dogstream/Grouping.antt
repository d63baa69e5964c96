-- ===== src/Dogstream/Grouping.antt =====
-- checks/datadog.py, Dogstream._aggregate: each group holds the points of its key in the order in which
-- they came.
use mathlib.Core.Path.{subst}
use dd_agent.Prelude.{
  ◌≡◌, ◌∙◌, refl, ap, sym, List, [], ◌∷◌, Bool, true, false, not, ◌||◌, if◌then◌else◌, keep, All,
  All-map, Bool-cases, inl, inr,
}
use dd_agent.Prelude.Sort.{sort, insert, IsSorted, sort-IsSorted}
use dd_agent.Dogstream.Order.{IsOrder}
use dd_agent.Dogstream.Groups.{same, add_to_groups, group_by, groups_of}

module _ {K V : Type 0} (lt : K → K → Bool) (key : V → K) (order : IsOrder lt) where
  -- The group of a key, or nothing.
  abbrev pub group_at : K → List (K × List V) → List V
  group_at k [] = []
  group_at k ((j, g) ∷ gs) = if same lt key j k then g else group_at k gs

  -- The elements with a key, in their order.
  abbrev pub with_key : K → List V → List V
  with_key k vs = keep (λ v. same lt key (key v) k) vs

  -- The keys of groups increase.
  abbrev pub IsIncreasing : List (K × List V) → Type 0
  IsIncreasing [] = Unit
  IsIncreasing ((k, g) ∷ gs) = All (λ p. lt k p.0 ≡ true) gs × IsIncreasing gs

  abbrev by_key : V → V → Bool
  by_key v w = lt (key v) (key w)

  irreflexive : (k : K) → lt k k ≡ false
  irreflexive k = elim (Bool-cases (lt k k)) [ inl e ↦ order.asym k k e | inr n ↦ n ]

  same_refl : (k : K) → same lt key k k ≡ true
  same_refl k = rw (irreflexive k) refl

  both_false : (p q : Bool) → not (p || q) ≡ true → (p ≡ false) × (q ≡ false)
  both_false true q e = cc
  both_false false true e = cc
  both_false false false e = (refl, refl)

  -- Elements that are neither below nor above each other have one key.
  same_lem : (j k : K) → same lt key j k ≡ true → j ≡ k
  same_lem j k e = let (below, above) = both_false (lt j k) (lt k j) e in order.same j k below above

  apart : (j k l : K) → lt j k ≡ true → same lt key j l ≡ true → same lt key k l ≡ true → ⊥
  apart j k l below at_j at_k = clash (
      sym (subst (λ x. lt x k ≡ true) (same_lem j l at_j ∙ sym (same_lem k l at_k)) below)
      ∙ irreflexive k)
    where
      clash : true ≡ false → ⊥
      clash e = cc

  insert-with_key :
      (v : V) (vs : List V) (k : K) → with_key k (insert by_key v vs) ≡ with_key k (v ∷ vs)
  unfolding insert
  insert-with_key v [] k = refl
  insert-with_key v (w ∷ ws) k = elim (Bool-cases (lt (key w) (key v))) [
    | inr stays ↦ rw stays refl
    | inl passes ↦ elim (Bool-cases (same lt key (key w) k)) [
      | inr other ↦ rw (passes, other) (insert-with_key v ws k)
      | inl at_w ↦ elim (Bool-cases (same lt key (key v) k)) [
        | inl at_v ↦ absurd (apart (key w) (key v) k passes at_w at_v)
        | inr other ↦
            rw (passes, at_w)
              (rw other (
                ap (◌∷◌ w) (
                  insert-with_key v ws k
                  ∙ ap (λ (b : Bool). if b then v ∷ with_key k ws else with_key k ws) other)))
      ]
    ]
  ]

  sort-with_key : (vs : List V) (k : K) → with_key k (sort by_key vs) ≡ with_key k vs
  unfolding sort
  sort-with_key [] k = refl
  sort-with_key (v ∷ vs) k =
      insert-with_key v (sort by_key vs) k
      ∙ ap (λ (ws : List V). if same lt key (key v) k then v ∷ ws else ws) (sort-with_key vs k)

  -- The first group of a list has the key of its first element.
  group_by-first :
      (w : V) (ws : List V)
      → (g : List V) × (gs : List (K × List V)) × (group_by lt key (w ∷ ws) ≡ (key w, g) ∷ gs)
  unfolding group_by
  group_by-first w ws = go (group_by lt key ws)
    where
      go :
          (gs : List (K × List V))
          → (g : List V) × (hs : List (K × List V)) × (add_to_groups lt key w gs ≡ (key w, g) ∷ hs)
      go [] = (w ∷ [], [], refl)
      go ((k, g) ∷ gs) = elim (Bool-cases (same lt key (key w) k)) [
        | inl e ↦ (w ∷ g, gs, rw e (ap (λ x. (x, w ∷ g) ∷ gs) (sym (same_lem (key w) k e))))
        | inr n ↦ (w ∷ [], (k, g) ∷ gs, rw n refl)
      ]

  none_with_key :
      (k : K) (vs : List V) → All (λ v. same lt key (key v) k ≡ false) vs → with_key k vs ≡ []
  none_with_key k [] h = refl
  none_with_key k (v ∷ vs) h = rw h.0 (none_with_key k vs h.1)

  true_false : {A : Type 0} → true ≡ false → A
  true_false e = cc

  -- Behind an element whose key is below that of a later one, its key does not come again.
  later_differs :
      (i j l k : K)
      → lt i j ≡ true
      → same lt key i k ≡ true
      → lt l j ≡ false
      → same lt key l k ≡ false
  later_differs i j l k below at_i h = elim (Bool-cases (same lt key l k)) [
    | inr other ↦ other
    | inl at_l ↦
        true_false
          (sym (subst (λ x. lt x j ≡ true) (same_lem i k at_i ∙ sym (same_lem l k at_l)) below) ∙ h)
  ]

  key_passed :
      (v w : V) (ws : List V) (k : K)
      → lt (key v) (key w) ≡ true
      → All (λ y. lt (key y) (key w) ≡ false) ws
      → same lt key (key v) k ≡ true
      → with_key k (w ∷ ws) ≡ []
  key_passed v w ws k below sorted at_v = none_with_key k (w ∷ ws) (
    later_differs (key v) (key w) (key w) k below at_v (irreflexive (key w)),
    All-map (λ y h. later_differs (key v) (key w) (key y) k below at_v h) ws sorted,
  )

  -- lt, unless the keys are the same or the other is below
  is_below : (j k : K) → same lt key j k ≡ false → lt k j ≡ false → lt j k ≡ true
  is_below j k differ above = elim (Bool-cases (lt j k)) [
    | inl e ↦ e
    | inr n ↦ true_false (sym (rw n (rw above refl)) ∙ differ)
  ]

  below_trans : (i j k : K) → lt i j ≡ true → lt j k ≡ true → lt i k ≡ true
  below_trans i j k p q = elim (Bool-cases (lt i k)) [
    | inl e ↦ e
    | inr n ↦ true_false (sym q ∙ order.trans k i j n (order.asym i j p))
  ]

  if_cons :
      (b : Bool) (v : V) (g r X : List V)
      → (if b then g else r) ≡ X
      → (if b then v ∷ g else r) ≡ (if b then v ∷ X else X)
  if_cons true v g r X e = ap (◌∷◌ v) e
  if_cons false v g r X e = e

  if_new :
      (b : Bool) (v : V) (r X : List V)
      → (b ≡ true → X ≡ [])
      → r ≡ X
      → (if b then v ∷ [] else r) ≡ (if b then v ∷ X else X)
  if_new true v r X h e = ap (◌∷◌ v) (sym (h refl))
  if_new false v r X h e = e

  group_by-with_key :
      (vs : List V) (k : K) → IsSorted by_key vs → group_at k (group_by lt key vs) ≡ with_key k vs
  unfolding group_by
  group_by-with_key [] k sorted = refl
  group_by-with_key (v ∷ []) k sorted = refl
  group_by-with_key (v ∷ w ∷ ws) k sorted =
      let (g, gs, e) = group_by-first w ws in
      let others = with_key k (w ∷ ws) in
      let rest : group_at k ((key w, g) ∷ gs) ≡ others =
        ap (group_at k) (sym e) ∙ group_by-with_key (w ∷ ws) k sorted.1 in
      ap (λ hs. group_at k (add_to_groups lt key v hs)) e
      ∙ elim (Bool-cases (same lt key (key v) (key w))) [
        | inl joins ↦
            ap
              (λ (b : Bool).
                group_at k (if b then (key w, v ∷ g) ∷ gs else (key v, v ∷ []) ∷ (key w, g) ∷ gs))
              joins
            ∙ if_cons (same lt key (key w) k) v g (group_at k gs) others rest
            ∙ ap (λ x. if same lt key x k then v ∷ others else others)
                (sym (same_lem (key v) (key w) joins))
        | inr differs ↦
            ap
              (λ (b : Bool).
                group_at k (if b then (key w, v ∷ g) ∷ gs else (key v, v ∷ []) ∷ (key w, g) ∷ gs))
              differs
            ∙ if_new (same lt key (key v) k) v (group_at k ((key w, g) ∷ gs)) others
                (key_passed v w ws k (is_below (key v) (key w) differs sorted.0.0) sorted.1.0) rest
      ]

  group_by-IsIncreasing : (vs : List V) → IsSorted by_key vs → IsIncreasing (group_by lt key vs)
  unfolding group_by
  group_by-IsIncreasing [] sorted = tt
  group_by-IsIncreasing (v ∷ []) sorted = (tt, tt)
  group_by-IsIncreasing (v ∷ w ∷ ws) sorted =
      let (g, gs, e) = group_by-first w ws in
      let rest : IsIncreasing ((key w, g) ∷ gs) =
        subst IsIncreasing e (group_by-IsIncreasing (w ∷ ws) sorted.1) in
      subst (λ hs. IsIncreasing (add_to_groups lt key v hs)) (sym e)
        (elim (Bool-cases (same lt key (key v) (key w))) [
          | inl joins ↦ rw joins rest
          | inr differs ↦
              let below = is_below (key v) (key w) differs sorted.0.0 in
              rw differs
                ((below, All-map (λ p h. below_trans (key v) (key w) p.0 below h) gs rest.0), rest)
        ])

  -- The groups of _aggregate have increasing keys, and the group of any key holds the points with
  -- this key, all of them, in the order in which they came: none for a key that no point has.
  pub groups_of-with_key :
      (vs : List V) (k : K)
      → (group_at k (groups_of lt key vs) ≡ with_key k vs) × IsIncreasing (groups_of lt key vs)
  unfolding groups_of
  groups_of-with_key vs k =
      let sorted =
        sort-IsSorted by_key (λ v w. order.asym (key v) (key w))
          (λ u v w. order.trans (key u) (key v) (key w)) vs in
      (
        group_by-with_key (sort by_key vs) k sorted ∙ sort-with_key vs k,
        group_by-IsIncreasing (sort by_key vs) sorted,
      )
