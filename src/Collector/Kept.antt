-- ===== src/Collector/Kept.antt =====
-- What single assignments do to the other keys of an AgentPayload.
use dd_agent.Prelude.{◌≡◌, refl, sym, ap, ◌∙◌, Option, none, some, Bool, true, false, arith}
use dd_agent.Prelude.Dict.{Dict, get, put, get-put_self}
use dd_agent.Prelude.Text.{Text, Text-discrete, codes}
use dd_agent.Collector.Payload.{is_metadata, AgentPayload, payload, getitem, setitem}
use dd_agent.Collector.Merged.{Holds, setitem-Holds, get-put_other}
use dd_agent.Collector.Operations.{read_lem, merged_lem}
use dd_agent.Collector.Populate.{Values, Host, add_startup, set_if, add_host, add_external}

module _ {V : Type 0} where
  -- The payload stands for a dict.
  abbrev pub IsConsistent : AgentPayload V → Type 0
  IsConsistent p = (d : Dict Text V) × Holds p d

  pub set-IsConsistent :
      (p : AgentPayload V) (k : Text) (v : V) → IsConsistent p → IsConsistent (setitem p k v)
  set-IsConsistent p k v (d, h) = (put Text-discrete d k v, setitem-Holds p d k v h)

  pub getitem-setitem : (p : AgentPayload V) (k : Text) (v : V) → getitem (setitem p k v) k ≡ some v
  unfolding getitem setitem
  getitem-setitem p k v = ground (
    arith,
    get-put_self Text-discrete p.data_payload k v,
    get-put_self Text-discrete p.meta_payload k v,
  )

  pub getitem-setitem_other :
      (p : AgentPayload V) (j k : Text) (v : V)
      → ¬ (j ≡ k)
      → getitem (setitem p j v) k ≡ getitem p k
  unfolding getitem setitem
  getitem-setitem_other p j k v n =
      ground (arith, get-put_other p.data_payload j k v n, get-put_other p.meta_payload j k v n)

  pub merged-read :
      (p : AgentPayload V) (k : Text)
      → IsConsistent p
      → get Text-discrete (payload p) k ≡ getitem p k
  merged-read p k (d, h) = merged_lem p d k h ∙ sym (read_lem p d k h)

  -- An assignment to a metadata key.
  set_metadata :
      (p : AgentPayload V) (j k : Text) (v : V)
      → is_metadata j ≡ true
      → is_metadata k ≡ false
      → getitem (setitem p j v) k ≡ getitem p k
  set_metadata p j k v t f = getitem-setitem_other p j k v (λ e. cc (ap is_metadata e))

  -- Only metadata keys are assigned.
  pub record Keeps (p p' : AgentPayload V) : Type 0 where
    pub others : (k : Text) → is_metadata k ≡ false → getitem p' k ≡ getitem p k
    pub consistent : IsConsistent p → IsConsistent p'

  pub Keeps-refl : (p : AgentPayload V) → Keeps p p
  Keeps-refl p = record { others = λ k f. refl; consistent = λ h. h }

  pub Keeps-trans : (p q r : AgentPayload V) → Keeps p q → Keeps q r → Keeps p r
  Keeps-trans p q r a b = record {
    others = λ k f. b.others k f ∙ a.others k f;
    consistent = λ h. b.consistent (a.consistent h);
  }

  Keeps-setitem :
      (p : AgentPayload V) (j : Text) (v : V) → is_metadata j ≡ true → Keeps p (setitem p j v)
  Keeps-setitem p j v t = record {
    others = λ k f. set_metadata p j k v t f;
    consistent = λ h. set-IsConsistent p j v h;
  }

module _ {V M E S : Type 0} (values : Values V M E S) (host : Host V E) where
  pub add_startup-Keeps :
      (due : Bool) (p : AgentPayload V) → Keeps p (add_startup values host due p)
  unfolding is_metadata Text-discrete
  add_startup-Keeps true p = Keeps-setitem p (codes "systemStats") host.configured_stats refl
  add_startup-Keeps false p = Keeps-refl p

  set_if-Keeps :
      (k : Text) (o : Option V) (p : AgentPayload V)
      → is_metadata k ≡ true
      → Keeps p (set_if values host k o p)
  set_if-Keeps k none p t = Keeps-refl p
  set_if-Keeps k (some v) p t = Keeps-setitem p k v t

  pub add_host-Keeps : (due : Bool) (p : AgentPayload V) → Keeps p (add_host values host due p)
  unfolding is_metadata Text-discrete
  add_host-Keeps true p =
      let p1 : AgentPayload V = set_if values host (codes "gohai") host.gohai p in
      let p2 : AgentPayload V = setitem p1 (codes "systemStats") host.system_stats in
      let p3 : AgentPayload V = setitem p2 (codes "meta") host.hostname_metadata in
      let p4 : AgentPayload V = setitem p3 (codes "host-tags") host.host_tags in
      Keeps-trans p p1 p4 (set_if-Keeps (codes "gohai") host.gohai p refl) (
        Keeps-trans p1 p2 p4 (Keeps-setitem p1 (codes "systemStats") host.system_stats refl) (
          Keeps-trans p2 p3 p4 (Keeps-setitem p2 (codes "meta") host.hostname_metadata refl)
            (Keeps-setitem p3 (codes "host-tags") host.host_tags refl)))
  add_host-Keeps false p = Keeps-refl p

  pub add_external-Keeps :
      (due : Bool) (p : AgentPayload V) → Keeps p (add_external values host due p)
  unfolding is_metadata Text-discrete
  add_external-Keeps true p = set_if-Keeps (codes "external_host_tags") host.external_tags p refl
  add_external-Keeps false p = Keeps-refl p

  pub set_agent_checks-Keeps :
      (p : AgentPayload V) (cache v : V)
      → Keeps p (setitem (setitem p (codes "agent_checks") v) (codes "meta") cache)
  unfolding is_metadata Text-discrete
  set_agent_checks-Keeps p cache v =
      let q : AgentPayload V = setitem p (codes "agent_checks") v in
      Keeps-trans p q (setitem q (codes "meta") cache)
        (Keeps-setitem p (codes "agent_checks") v refl) (Keeps-setitem q (codes "meta") cache refl)
