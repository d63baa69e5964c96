-- ===== src/Dogstatsd/Reporter.antt =====
-- dogstatsd.py, class Reporter: flush and what it posts. The aggregator is an interface; HTTP, whose
-- errors submit_http catches, is a list of the requests.
use dd_agent.Prelude.{
  ℕ, zero, suc, ◌+◌, ◌%◌, ◌==◌, Option, none, some, List, [], ◌∷◌, ◌++◌, Bool, true, false, leb,
  ◌||◌, if◌then◌else◌, length,
}
use dd_agent.Dogstatsd.Chunks.{chunks}
use dd_agent.Dogstatsd.Payload.{Encoding, Body, serialize_metrics}

-- The methods of the aggregator that a flush calls; an exception of flush leaves a state too.
pub record Source : Type 1 where
  pub State : Type 0
  pub Point : Type 0
  pub Event : Type 0
  pub Check : Type 0
  pub flush : State → Option (List Point) × State
  pub flush_events : State → List Event × State
  pub flush_service_checks : State → List Check × State
  pub total_count : State → ℕ

-- A request to the server: the series, a chunk of events, or service checks.
pub data Post (E C : Type 0) : Type 0 where
  series : Body → Post E C
  intake : List E → Post E C
  check_run : List C → Post E C

-- what DogstatsdStatus is given
pub record Status : Type 0 where
  pub flush_count : ℕ
  pub packet_count : ℕ
  pub metric_count : ℕ
  pub event_count : ℕ
  pub service_check_count : ℕ

pub record Reporter (S : Type 0) : Type 0 where
  pub metrics_aggregator : S
  pub flush_count : ℕ
  pub log_count : ℕ
  pub event_chunk_size : ℕ

-- event_chunk_size or EVENT_CHUNK_SIZE
abbrev pub chunk_size_of : Option ℕ → ℕ
chunk_size_of none = 50
chunk_size_of (some zero) = 50
chunk_size_of (some (suc n)) = suc n

unfoldable pub new_reporter : {S : Type 0} → S → Option ℕ → Reporter S
new_reporter aggregator size = record {
  metrics_aggregator = aggregator;
  flush_count = 0;
  log_count = 0;
  event_chunk_size = chunk_size_of size;
}

-- What a call has posted, whether it returned, and the status that was persisted.
pub record Report (S E C : Type 0) : Type 0 where
  pub posts : List (Post E C)
  pub status : Option Status
  pub log_info : Bool
  pub reporter : Reporter S

abbrev pub is_empty : {A : Type 0} → List A → Bool
is_empty [] = true
is_empty (_ ∷ _) = false

module _ (src : Source) (enc : Encoding src.Point) (dumps_events : List src.Event → Bool)
    (dumps_checks : List src.Check → Bool) where
  open src use {State, Event, Check}

  -- submit: the posts, or those before an exception
  unfoldable pub submit : List src.Point → Option (List (Post Event Check))
  unfolding serialize_metrics
  submit metrics = elim (serialize_metrics enc metrics) [
    | none ↦ none
    | some b ↦ some (series b ∷ [])
  ]

  -- the loop over the chunks: what it posts, and whether json.dumps succeeds on all
  unfoldable pub post_chunks : List (List Event) → List (Post Event Check) × Bool
  post_chunks [] = ([], true)
  post_chunks (c ∷ cs) =
      let (posts, all) = post_chunks cs in
      if dumps_events c then (intake c ∷ posts, all) else ([], false)

  -- submit_events; the generator ends, since the chunk size is not 0
  unfoldable pub submit_events : List Event → ℕ → List (Post Event Check) × Bool
  unfolding chunks post_chunks
  submit_events events size = elim (chunks events size) [
    | none ↦ ([], false)
    | some cs ↦ post_chunks cs
  ]

  unfoldable pub submit_service_checks : List Check → List (Post Event Check) × Bool
  submit_service_checks checks =
      if dumps_checks checks then (check_run checks ∷ [], true) else ([], false)

  abbrev Reported : Type 0
  Reported = Report State Event Check

  -- the log line and the status at the end of flush
  unfoldable pub finish : ℕ → ℕ → ℕ → List (Post Event Check) → Reporter State → Reported
  finish metrics events checks posts r = record {
    posts = posts;
    status = some (record {
      flush_count = r.flush_count;
      packet_count = src.total_count r.metrics_aggregator;
      metric_count = metrics;
      event_count = events;
      service_check_count = checks;
    });
    log_info = leb r.flush_count 10 || leb r.log_count 5;
    reporter = r;
  }

  abbrev stopped : List (Post Event Check) → Reporter State → Reported
  stopped posts r = record { posts = posts; status = none; log_info = false; reporter = r }

  unfoldable pub flush_checks : ℕ → ℕ → List (Post Event Check) → Reporter State → Reported
  unfolding submit_service_checks finish
  flush_checks metrics events posts r =
      let (checks, s) = src.flush_service_checks r.metrics_aggregator in
      let r' : Reporter State = record r { metrics_aggregator = s } in
      if is_empty checks
      then finish metrics events 0 posts r'
      else (let (more, fine) = submit_service_checks checks in
          if fine
          then finish metrics events (length checks) (posts ++ more) r'
          else stopped posts r')

  unfoldable pub flush_events : ℕ → List (Post Event Check) → Reporter State → Reported
  unfolding submit_events flush_checks
  flush_events metrics posts r =
      let (events, s) = src.flush_events r.metrics_aggregator in
      let r' : Reporter State = record r { metrics_aggregator = s } in
      if is_empty events
      then flush_checks metrics 0 posts r'
      else (let (more, fine) = submit_events events r.event_chunk_size in
          if fine
          then flush_checks metrics (length events) (posts ++ more) r'
          else stopped (posts ++ more) r')

  -- flush after its first call of the aggregator
  unfoldable pub flush_metrics : Option (List src.Point) → Reporter State → Reported
  unfolding flush_events submit
  flush_metrics none r = stopped [] r
  flush_metrics (some metrics) r =
      let r' : Reporter State = record r {
        log_count = if r.flush_count % 70 == 0 then 0 else r.log_count;
      } in
      if is_empty metrics then flush_events 0 [] r' else elim (submit metrics) [
        | none ↦ stopped [] r'
        | some posts ↦ flush_events (length metrics) posts r'
      ]

  -- the reporter of a flush, when the aggregator has been flushed
  abbrev pub counted : Reporter State → State → Reporter State
  counted r s = record r {
    metrics_aggregator = s;
    flush_count = r.flush_count + 1;
    log_count = r.log_count + 1;
  }

  unfoldable pub flush : Reporter State → Reported
  unfolding flush_metrics
  flush r = let (flushed, s) = src.flush r.metrics_aggregator in flush_metrics flushed (counted r s)
