-- ===== src/Tests/Dogstatsd.antt =====
-- dogstatsd.py and util.chunks: a flush with a metric, three events and no service checks.
use dd_agent.Prelude.{
  none, ℕ, Bool, ◌&&◌, ltb, ◌+◌, ◌≡◌, refl, some, List, [], ◌∷◌, ◌++◌, map, All, true, arith, false,
  if◌then◌else◌,
}
use dd_agent.Prelude.Text.{Text, codes}
use dd_agent.Dogstatsd.Chunks.{fill, chunks_within, chunks, concat, IsChunk}
use dd_agent.Dogstatsd.Payload.{
  Encoding, json, undecodable, Body, Carries, Sends, serialized, serialize_metrics,
  serialize_metrics-returns,
}
use dd_agent.Dogstatsd.Reporter.{Source, intake, Reporter, flush}
use dd_agent.Dogstatsd.Address.{
  Sockets, inet, is_inet, address, mapto_v6, resolve, get_socket_address,
}
use dd_agent.Dogstatsd.Deliveries.{metric_posts, flush_delivers}

abbrev five : List ℕ
five = 1 ∷ 2 ∷ 3 ∷ 4 ∷ 5 ∷ []

chunks_test : chunks five 2 ≡ some ((1 ∷ 2 ∷ []) ∷ (3 ∷ 4 ∷ []) ∷ (5 ∷ []) ∷ [])
unfolding chunks chunks_within fill
chunks_test = refl

-- A chunk size that divides the length.
chunks_even_test : chunks {A = ℕ} (1 ∷ 2 ∷ []) 2 ≡ some ((1 ∷ 2 ∷ []) ∷ [])
unfolding chunks chunks_within fill
chunks_even_test = refl

-- Metrics are texts, which are serialized one after the other.
abbrev encoding : Encoding Text
encoding = record {
  dumps = λ ms. json (concat ms);
  unicode_metric = λ m. some m;
  status_metric = λ s. s;
  compress = λ t. [];
}

-- Only ASCII is serialized, and other characters are replaced.
abbrev is_plain : Text → Bool
is_plain [] = true
is_plain (c ∷ cs) = ltb c 128 && is_plain cs

abbrev strict : Encoding Text
strict = record {
  dumps = λ ms. if is_plain (concat ms) then json (concat ms) else undecodable;
  unicode_metric = λ m. some (map (λ c. if ltb c 128 then c else b'?') m);
  status_metric = λ s. s;
  compress = λ t. [];
}

abbrev accented : List Text
accented = (b'h' ∷ 233 ∷ []) ∷ []

replaced_test :
    serialized strict accented
    ≡ some ((b'h' ∷ b'?' ∷ []) ∷ codes "success" ∷ codes "failure" ∷ [], codes "h?successfailure")
unfolding serialized
replaced_test = refl

serialize_metrics-returns_example :
    (sent : List Text) × (u : Text) × (b : Body) × (serialize_metrics strict accented ≡ some b)
    × (strict.dumps sent ≡ json u)
    × Carries strict b u
    × Sends strict accented sent
serialize_metrics-returns_example =
    serialize_metrics-returns strict accented (codes "permanent_failure") refl (λ e. cc)

-- The aggregator counts the calls of its methods.
abbrev source : Source
source = record {
  State = ℕ;
  Point = Text;
  Event = ℕ;
  Check = ℕ;
  flush = λ s. (some (codes "hits" ∷ []), s + 1);
  flush_events = λ s. (five, s + 10);
  flush_service_checks = λ s. ([], s + 100);
  total_count = λ s. s;
}

abbrev reporter : Reporter ℕ
reporter = record { metrics_aggregator = 0; flush_count = 0; log_count = 0; event_chunk_size = 2 }

flush_delivers_example :
    (cs : List (List ℕ)) × (concat cs ≡ five)
    × All (IsChunk 2) cs
    × ((flush source encoding (λ c. true) (λ c. true) reporter).posts
        ≡ metric_posts source encoding
            (λ c. true)
            (λ c. true)
            concat
            (λ ms. refl)
            (λ c. refl)
            (λ c. refl)
            (codes "hits" ∷ [])
          ++ map intake cs
          ++ [])
    × ((flush source encoding (λ c. true) (λ c. true) reporter).reporter.metrics_aggregator ≡ 111)
    × ((flush source encoding (λ c. true) (λ c. true) reporter).status
        ≡ some (record {
          flush_count = 1;
          packet_count = 111;
          metric_count = 1;
          event_count = 5;
          service_check_count = 0;
        }))
flush_delivers_example =
    flush_delivers source encoding (λ c. true) (λ c. true) concat (λ ms. refl) (λ c. refl)
      (λ c. refl) reporter (codes "hits" ∷ []) 1 (omega arith) refl

-- A resolver that knows localhost only by its IPv4 address.
abbrev sockets : Sockets
sockets = record {
  inet_pton = λ f a. is_inet f;
  getaddrinfo = λ h p f.
      if is_inet f
      then some ((inet, record { host = some (codes "127.0.0.1"); port = p; rest = none }) ∷ [])
      else none;
}

address_test :
    get_socket_address sockets (codes "localhost") 8125 false
    ≡ address (record { host = some (codes "::ffff:127.0.0.1"); port = 8125; rest = some (0, 0) })
unfolding get_socket_address resolve mapto_v6
address_test = refl

ipv4_address_test :
    get_socket_address sockets (codes "localhost") 8125 true
    ≡ address (record { host = some (codes "127.0.0.1"); port = 8125; rest = none })
unfolding get_socket_address resolve mapto_v6
ipv4_address_test = refl
