-- ===== src/NetworkCheck/Tracks.antt =====
-- checks/network_checks.py, NetworkCheck._process_results: what a result does to what is stored of
-- each service check.
use mathlib.Core.Logic.{ite, if_pos, if_neg}
use dd_agent.Prelude.{
  ◌≡◌, ◌∙◌, refl, ap, sym, Option, some, List, [], ◌∷◌, ◌++◌, Bool, true, false, if◌then◌else◌,
  Bool-cases, inl, inr, leb_ℤ, pos,
}
use dd_agent.Prelude.Dict.{Dict, get, put, get-put}
use dd_agent.Prelude.Text.{Text, Text-discrete}
use dd_agent.NetworkCheck.Window.{
  Status, down, warning, critical, up, Track, observe, notify, trim, window_of, count_down,
}
use dd_agent.NetworkCheck.Instance.{Instance, settings_of, Key, Name-discrete, Key-discrete}
use dd_agent.NetworkCheck.Pool.{Subclass, Pools, NetworkCheck, or_else, track_at, track}

abbrev statuses_at : Dict Text (Dict (Option Text) (List Status)) → Text → Option Text → List Status
statuses_at d name sc = or_else (get Name-discrete (or_else (get Text-discrete d name) []) sc) []

abbrev notified_at : Dict Key Status → Key → Status
notified_at d key = or_else (get Key-discrete d key) up

statuses_at-put :
    (d : Dict Text (Dict (Option Text) (List Status))) (name name' : Text) (sc sc' : Option Text)
    (ss : List Status)
    → statuses_at
        (put Text-discrete d name (put Name-discrete (or_else (get Text-discrete d name) []) sc ss))
        name'
        sc'
      ≡ ite (Key-discrete (name, sc) (name', sc')) ss (statuses_at d name' sc')
statuses_at-put d name name' sc sc' ss =
    let own = put Name-discrete (or_else (get Text-discrete d name) []) sc ss in
    rw (get-put Text-discrete d name name' own) (elim (Text-discrete name name') [
      | Dec.yes same ↦
          ap (λ o. or_else (get Name-discrete (or_else o []) sc') [])
            (if_pos (Text-discrete name name') same (some own) (get Text-discrete d name'))
          ∙ ap (λ o. or_else o [])
              (get-put Name-discrete (or_else (get Text-discrete d name) []) sc sc' ss)
          ∙ elim (Name-discrete sc sc') [
            | Dec.yes same_sc ↦
                ap (λ o. or_else o []) (if_pos (Name-discrete sc sc') same_sc (some ss) _)
                ∙ sym (
                    if_pos (Key-discrete (name, sc) (name', sc')) (λ j. (same j, same_sc j)) ss
                      (statuses_at d name' sc'))
            | Dec.no other_sc ↦
                ap (λ o. or_else o []) (if_neg (Name-discrete sc sc') other_sc (some ss) _)
                ∙ ap (λ k. statuses_at d k sc') same
                ∙ sym (
                    if_neg (Key-discrete (name, sc) (name', sc')) (λ e. other_sc (ap (λ p. p.1) e))
                      ss (statuses_at d name' sc'))
          ]
      | Dec.no other ↦
          ap (λ o. or_else (get Name-discrete (or_else o []) sc') [])
            (if_neg (Text-discrete name name') other (some own) (get Text-discrete d name'))
          ∙ sym (
              if_neg (Key-discrete (name, sc) (name', sc')) (λ e. other (ap (λ p. p.0) e)) ss
                (statuses_at d name' sc'))
    ])

notify_quiet : (b : Bool) (s : Status) → (notify b s).0 ≡ false → (notify b s).1 ≡ s
notify_quiet true down e = refl
notify_quiet true warning e = cc
notify_quiet true critical e = cc
notify_quiet true up e = cc
notify_quiet false down e = cc
notify_quiet false warning e = cc
notify_quiet false critical e = cc
notify_quiet false up e = refl

notified_at-put :
    (d : Dict Key Status) (key key' : Key) (b : Bool)
    → notified_at
        (if (notify b (notified_at d key)).0
          then put Key-discrete d key (notify b (notified_at d key)).1
          else d)
        key'
      ≡ ite (Key-discrete key key') (notify b (notified_at d key)).1 (notified_at d key')
notified_at-put d key key' b =
    let r = notify b (notified_at d key) in
    elim (Bool-cases r.0) [
      | inl e ↦ rw e (
          ap (λ o. or_else o up) (get-put Key-discrete d key key' r.1)
          ∙ elim (Key-discrete key key') [
            | Dec.yes same ↦
                ap (λ o. or_else o up)
                  (if_pos (Key-discrete key key') same (some r.1) (get Key-discrete d key'))
                ∙ sym (if_pos (Key-discrete key key') same r.1 (notified_at d key'))
            | Dec.no other ↦
                ap (λ o. or_else o up)
                  (if_neg (Key-discrete key key') other (some r.1) (get Key-discrete d key'))
                ∙ sym (if_neg (Key-discrete key key') other r.1 (notified_at d key'))
          ])
      | inr e ↦ rw e (elim (Key-discrete key key') [
        | Dec.yes same ↦
            ap (notified_at d) (sym same)
            ∙ sym (notify_quiet b (notified_at d key) e)
            ∙ sym (if_pos (Key-discrete key key') same r.1 (notified_at d key'))
        | Dec.no other ↦ sym (if_neg (Key-discrete key key') other r.1 (notified_at d key'))
      ])
    ]

ite_track :
    {X : Type 0} (d : Dec X) (as' bs : List Status) (s t : Status)
    → record { statuses = ite d as' bs; notified = ite d s t }
      ≡ ite {C = Track} d
          (record { statuses = as'; notified = s })
          (record { statuses = bs; notified = t })
ite_track (Dec.yes e) as' bs s t = refl
ite_track (Dec.no e) as' bs s t = refl

module _ {M E S P J : Type 0} (sub : Subclass M E S) (pools : Pools P J) where
  abbrev Net : Type 0
  Net = NetworkCheck M E S P J

  pub track_at-track :
      (name : Text) (s : Status) (m : M) (sc : Option Text) (i : Instance) (n : Net) (key : Key)
      → track_at sub pools (track sub pools name s m sc i n) key
        ≡ ite
            (Key-discrete (name, sc) key)
            (observe (settings_of i) (track_at sub pools n (name, sc)) s).1
            (track_at sub pools n key)
  unfolding track_at track observe
  track_at-track name s m sc i n (name', sc') =
      let ss = trim (window_of (settings_of i)) (statuses_at n.statuses name sc ++ s ∷ []) in
      let b = leb_ℤ (settings_of i).threshold (pos (count_down ss)) in
      (λ j. record {
        statuses = statuses_at-put n.statuses name name' sc sc' ss j;
        notified = notified_at-put n.notified (name, sc) (name', sc') b j;
      })
      ∙ ite_track (Key-discrete (name, sc) (name', sc')) ss (statuses_at n.statuses name' sc')
          (notify b (notified_at n.notified (name, sc))).1 (notified_at n.notified (name', sc'))
