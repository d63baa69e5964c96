-- ===== src/Dogstatsd/Deliveries.antt =====
-- dogstatsd.py, Reporter.flush: what a flush whose texts can all be serialized posts.
use mathlib.Core.List.{append-nil}
use dd_agent.Prelude.{
  ℕ, ◌+◌, ◌%◌, ◌==◌, ◌<◌, ◌≡◌, ◌∙◌, refl, ap, sym, some, List, [], ◌∷◌, ◌++◌, map, Bool, true,
  false, if◌then◌else◌, length, All, List-cases, inl, inr,
}
use dd_agent.Prelude.Text.{Text, codes}
use dd_agent.Dogstatsd.Chunks.{chunks, concat, IsChunk, chunks-splits}
use dd_agent.Dogstatsd.Payload.{Encoding, json, serialized, body_of, serialize_metrics-serialized}
use dd_agent.Dogstatsd.Reporter.{
  Source, Post, series, intake, check_run, Reporter, submit, post_chunks, submit_events,
  submit_service_checks, is_empty, finish, flush_checks, flush_events, flush_metrics, counted,
  flush,
}

module _ (src : Source) (enc : Encoding src.Point) (dumps_events : List src.Event → Bool)
    (dumps_checks : List src.Check → Bool) (text_of : List src.Point → Text)
    (dumps_all : (ms : List src.Point) → enc.dumps ms ≡ json (text_of ms))
    (dumps_each : (c : List src.Event) → dumps_events c ≡ true)
    (dumps_any : (c : List src.Check) → dumps_checks c ≡ true) where
  open src use {State, Event, Check}

  abbrev Posts : Type 0
  Posts = List (Post Event Check)

  post_chunks_lem :
      (cs : List (List Event))
      → post_chunks src enc dumps_events dumps_checks cs ≡ (map intake cs, true)
  unfolding post_chunks
  post_chunks_lem [] = refl
  post_chunks_lem (c ∷ cs) = simp (post_chunks_lem cs, dumps_each c) refl

  -- The service checks are posted in one request, if there are any.
  abbrev pub check_posts : List Check → Posts
  check_posts checks = if is_empty checks then [] else check_run checks ∷ []

  -- The series is posted in one request, with the metric that reports its serialization.
  abbrev pub metric_posts : List src.Point → Posts
  metric_posts metrics =
      if is_empty metrics
      then []
      else series (body_of enc (text_of (metrics ++ enc.status_metric (codes "success") ∷ []))) ∷ []

  flush_checks_lem :
      (m e : ℕ) (posts : Posts) (r : Reporter State)
      → flush_checks src enc dumps_events dumps_checks m e posts r
        ≡ finish src enc dumps_events dumps_checks m e
            (length (src.flush_service_checks r.metrics_aggregator).0)
            (posts ++ check_posts (src.flush_service_checks r.metrics_aggregator).0)
            (record r { metrics_aggregator = (src.flush_service_checks r.metrics_aggregator).1 })
  unfolding flush_checks
  flush_checks_lem m e posts r =
      let checks = (src.flush_service_checks r.metrics_aggregator).0 in
      let left : Reporter State = record r {
        metrics_aggregator = (src.flush_service_checks r.metrics_aggregator).1;
      } in
      elim (List-cases checks) [
        | inl none_left ↦
            simp (none_left, flush_checks)
              (ap (λ ps. finish src enc dumps_events dumps_checks m e 0 ps left)
                (sym (append-nil posts)))
        | inr (c, cs, some_left) ↦
            simp (some_left, dumps_any (c ∷ cs), flush_checks, submit_service_checks) refl
      ]

  submit_events_lem :
      (events : List Event) (size : ℕ) (cs : List (List Event))
      → chunks events size ≡ some cs
      → submit_events src enc dumps_events dumps_checks events size ≡ (map intake cs, true)
  unfolding submit_events
  submit_events_lem events size cs e = rw (e, submit_events) (post_chunks_lem cs)

  -- The chunks of the events, and what flush_events makes of them.
  abbrev Chunked : ℕ → List Event → List (List Event) → Type 0
  Chunked size events cs = (concat cs ≡ events) × All (IsChunk size) cs

  flush_events_lem :
      (m : ℕ) (posts : Posts) (r : Reporter State)
      → 0 < r.event_chunk_size
      → (cs : List (List Event)) × Chunked r.event_chunk_size
          (src.flush_events r.metrics_aggregator).0
          cs
        × (flush_events src enc dumps_events dumps_checks m posts r
            ≡ flush_checks src enc dumps_events dumps_checks m
                (length (src.flush_events r.metrics_aggregator).0)
                (posts ++ map intake cs)
                (record r { metrics_aggregator = (src.flush_events r.metrics_aggregator).1 }))
  unfolding flush_events
  flush_events_lem m posts r h =
      let events = (src.flush_events r.metrics_aggregator).0 in
      let left : Reporter State = record r {
        metrics_aggregator = (src.flush_events r.metrics_aggregator).1;
      } in
      elim (List-cases events) [
        | inl none_left ↦ (
          [],
          (sym none_left, tt),
          simp (none_left, flush_events)
              (ap (λ ps. flush_checks src enc dumps_events dumps_checks m 0 ps left)
                (sym (append-nil posts))),
        )
        | inr (c, cs, some_left) ↦
            let (chunked, splits, joined, small) = chunks-splits events r.event_chunk_size h in
            let all = submit_events_lem events r.event_chunk_size chunked splits in
            let nonempty : is_empty events ≡ false = ap is_empty some_left in
            (chunked, (joined, small), rw (nonempty, flush_events) (rw all refl))
      ]

  submit_lem :
      (metrics : List src.Point)
      → submit src enc dumps_events dumps_checks metrics
        ≡ some (
            series (body_of enc (text_of (metrics ++ enc.status_metric (codes "success") ∷ [])))
            ∷ [])
  unfolding submit serialized
  submit_lem metrics =
      let all = metrics ++ enc.status_metric (codes "success") ∷ [] in
      rw
        (
          serialize_metrics-serialized enc metrics all (text_of all)
              (rw (dumps_all all, serialized) refl),
          submit,
        )
        refl

  -- the reporter after the log has been counted
  abbrev logged : Reporter State → State → Reporter State
  logged r s = record r {
    metrics_aggregator = s;
    flush_count = r.flush_count + 1;
    log_count = if (r.flush_count + 1) % 70 == 0 then 0 else r.log_count + 1;
  }

  flush_metrics_lem :
      (metrics : List src.Point) (r : Reporter State) (s : State)
      → flush_metrics src enc dumps_events dumps_checks
          (some metrics)
          (counted src enc dumps_events dumps_checks r s)
        ≡ flush_events src enc dumps_events dumps_checks
            (length metrics)
            (metric_posts metrics)
            (logged r s)
  unfolding flush_metrics
  flush_metrics_lem [] r s = refl
  flush_metrics_lem (m ∷ ms) r s = rw (submit_lem (m ∷ ms)) refl

  flush_lem :
      (r : Reporter State) (metrics : List src.Point) (s : State)
      → src.flush r.metrics_aggregator ≡ (some metrics, s)
      → flush src enc dumps_events dumps_checks r
        ≡ flush_events src enc dumps_events dumps_checks
            (length metrics)
            (metric_posts metrics)
            (logged r s)
  unfolding flush
  flush_lem r metrics s e =
      ap
        (λ p.
          flush_metrics src enc dumps_events dumps_checks p.0
            (counted src enc dumps_events dumps_checks r p.1))
        e
      ∙ flush_metrics_lem metrics r s

  -- A flush of an aggregator whose flush returns, where json.dumps succeeds on everything, posts the
  -- metrics in one request, then the events in their order, none lost and none twice, in chunks of
  -- at most event_chunk_size, and then the service checks in one request; a kind of which there is
  -- nothing is not posted. It leaves the aggregator as its three methods do, one after the other, and
  -- persists the number of each kind.
  pub flush_delivers :
      (r : Reporter State) (metrics : List src.Point) (s : State)
      → 0 < r.event_chunk_size
      → src.flush r.metrics_aggregator ≡ (some metrics, s)
      → (cs : List (List Event)) × (concat cs ≡ (src.flush_events s).0)
        × All (IsChunk r.event_chunk_size) cs
        × ((flush src enc dumps_events dumps_checks r).posts
            ≡ metric_posts metrics
              ++ map intake cs
              ++ check_posts (src.flush_service_checks (src.flush_events s).1).0)
        × ((flush src enc dumps_events dumps_checks r).reporter.metrics_aggregator
            ≡ (src.flush_service_checks (src.flush_events s).1).1)
        × ((flush src enc dumps_events dumps_checks r).status
            ≡ some (record {
              flush_count = r.flush_count + 1;
              packet_count = src.total_count (src.flush_service_checks (src.flush_events s).1).1;
              metric_count = length metrics;
              event_count = length (src.flush_events s).0;
              service_check_count = length (src.flush_service_checks (src.flush_events s).1).0;
            }))
  unfolding finish
  flush_delivers r metrics s h e =
      let (cs, (joined, small), events) =
        flush_events_lem (length metrics) (metric_posts metrics) (logged r s) h in
      let left : Reporter State = record (logged r s) {
        metrics_aggregator = (src.flush_events s).1;
      } in
      let all =
        flush_lem r metrics s e
        ∙ events
        ∙ flush_checks_lem (length metrics) (length (src.flush_events s).0)
            (metric_posts metrics ++ map intake cs) left in
      (
        cs,
        joined,
        small,
        ap (λ p. p.posts) all,
        ap (λ p. p.reporter.metrics_aggregator) all,
        ap (λ p. p.status) all,
      )
