-- ===== src/Lib.antt =====
-- The Datadog agent: the forwarder's transaction queue, the metrics aggregator and the reporter
-- of DogStatsD, the base classes of the checks, the reader and parser of log files, and the
-- collector with its emitter.
--
-- The agent's checks and the DogStatsD server hand metrics to an aggregator (aggregator.py),
-- which keeps one metric for each context (name, tags, host, device) and reports points at every
-- flush. The payloads go to the forwarder (ddagent.py), whose TransactionManager (transaction.py)
-- keeps them in a queue, sends them within the limits of size, throttling and parallelism, and
-- replays those that failed. The reporter of DogStatsD (dogstatsd.py) flushes its aggregator and
-- posts what it gets. Checks derive from a base class (checks/__init__.py), network checks from
-- one that runs them in a pool of threads (checks/network_checks.py). Dogstreams
-- (checks/datadog.py) parse the lines that the reader of a log file (utils/tailfile.py) gives
-- them. The collector (checks/collector.py) runs the checks, puts what they give and, from time
-- to time, metadata into a payload and hands it to the emitters, of which one (emitter.py)
-- sanitises and posts it. The service discovery (utils/service_discovery) looks up the templates
-- of the checks for a container.
--
-- Files and code:
--   Prelude           native numbers, Booleans, lists, integers, texts, dictionaries, sorting
--   Forwarder         transaction.py and AgentTransaction.on_response of ddagent.py
--     Transaction     class Transaction
--     Manager         the state of TransactionManager, and append
--     Flush           flush, flush_next, tr_error, tr_error_reject_request, tr_success, on_response
--     Queue, Room, Eviction           the queue's counters, and what append evicts
--     Events, Running, Parallelism    the running flushes over all sequences of events
--     Books, Accounting               the counters over all sequences of events
--     Order, Endings, Termination     what is sent first, how a transaction ends, that a flush ends
--     Prompt, Drain   a flush whose requests all succeed
--   Aggregator        aggregator.py
--     Point           api_formatter, get_formatter
--     Metric, Histogram, Flush, Class   the classes of metrics: sample, flush, __init__
--     Base, MagicTags   class Aggregator
--     Metrics         class MetricsAggregator
--     Calls           the methods of MetricsAggregator that only call submit_metric
--     Buckets         class MetricsBucketAggregator
--     Contexts, Flushed, Cutoff, Totals, Quantiles   theorems on submission, flushes, buckets, sums
--                     and quantiles
--     Histories       submissions in any order, and the map of metrics that they refine
--   Packet            aggregator.py, the packets of DogStatsD
--     Split, Slice    str.split, str.join, int(), slices, replace, rsplit
--     Rejoin, Metric  parse_metric_packet
--     Event, Lengths  parse_event_packet
--     ServiceCheck    parse_sc_packet
--     Lines, Submit   submit_packets
--   Check             checks/__init__.py, the base classes of the checks
--     Store           declaration of metrics, save_gauge, save_sample; cast_metric_val of util.py
--     Read, Samples   get_sample_with_timestamp, get_metrics, get_sample and get_samples
--     Normalize       normalize, normalize_device_name
--     Rates           theorems on the rates of counters
--     Run             class AgentCheck: what a check saves, and run over its instances
--   Config            config.py, the histogram settings
--   NetworkCheck      checks/network_checks.py, class NetworkCheck
--     Window, Levels  the statuses of a service check, its window and its events
--     Instance        the instances, their names and the results of their jobs
--     Pool            the state, the pool of threads, and all operations
--     Tracks, Results, Jobs, Restart   theorems on results and on the jobs
--   Dogstatsd         dogstatsd.py, class Reporter
--     Chunks          chunks of util.py
--     Payload         serialize_metrics
--     Reporter, Deliveries   the flush of the reporter and what it posts
--     Address         mapto_v6 and get_socket_address
--     Aggregators     the bucket aggregator as what the reporter calls
--   TailFile          utils/tailfile.py
--     Reader          the generator that reads a log file
--     Lines, Follow   the lines of one call, and those of a file that changes
--   Dogstream         checks/datadog.py
--     Parser, Kept    the lines of a log, and what is kept of them
--     Order, Groups   the sorted groups of points and their summaries
--     Check           the output of one stream, and of all
--     Grouping, Aggregation   theorems on the groups
--   Collector         checks/collector.py and checks/check_status.py
--     Payload         class AgentPayload: its two parts, and emit
--     Merged, Deletion, Operations   the dict that an AgentPayload stands for
--     Statuses        InstanceStatus, CheckStatus, EmitterStatus, CollectorStatus
--     Checks, Collected   the loop of Collector.run over the checks, and what it collects
--     Intervals, Schedule   _should_send_additional_data, and when it sends
--     Populate        _populate_payload_metadata
--     Run             run from the loop over the checks to the emitters
--     Kept, Entries, Additions, Stored, Emitted   what a run keeps of the payload and what it emits
--   Discovery         utils/service_discovery/abstract_config_store.py
--     Image           _get_image_ident
--     Store           _issue_read, read_config_from_store, the annotations of pods, auto-configuration
--     Refresh, Caching   get_check_tpls, get_checks_to_refresh, and the cache that they share
--   Emitter           emitter.py
--     Items           payloads: nested dicts, lists, tuples and strings
--     Sanitize        remove_control_chars, remove_undecodable_chars, sanitize_payload
--     Send, Posted    http_emitter and post_headers, and what is posted
--     Clean, Fixed, Keys, Types   theorems on sanitised payloads
--   Tests             runs on concrete inputs
--
-- State and effects. A method that writes to its object takes the record of the object's fields
-- and returns it with an outcome: what was written before an exception is in the outcome too. The
-- queue and a flush in progress share their transactions, so a transaction is an address in the
-- field `objects`. What a method reads of its surroundings, clocks, the IOLoop and whether
-- sending raised, is an argument. flush_next calls itself last on each branch: `turn` is one
-- call, `flush_next` repeats it with one Reading for each, and one Reading more than there are
-- transactions to flush is enough. The events of Forwarder/Events let other events come between
-- any two calls of flush_next.
--
-- The generator of TailFile is a state with the place at which it goes on; each call is given the
-- file that stands at the path. Pools of threads are a parameter, and the results that workers
-- have put into the queue are part of the state. What a flush of the reporter sends is a list of
-- requests. A payload is a tree; a dict in it is the list of its entries in the order in which
-- they are iterated, and an entry that is put under an equal key keeps the key, as in Python. The
-- emitter's request is its result, since what goes wrong with the request is only logged.
--
-- Numbers. Clock readings are whole numbers, microseconds in Forwarder and seconds elsewhere.
-- Samples are integers, and quotients keep both sides, so that nothing depends on the rounding of
-- floats; the members of a Set and of a sample that is a float are not told apart from integers.
-- float() and the comparison of a sample rate are parameters of Packet/Metric, and the methods
-- that submit_packets calls are one of Packet/Submit; float() is a parameter of Check/Store and
-- Config too. json.dumps, zlib, md5 and crc32, the categories and the decoder of unicode strings,
-- the resolver of sockets, the conversions of a parsed line and the addition of floats are
-- parameters of the modules that use them. Percentile names use fuel for decimal digits, one more
-- than the number, which has fewer digits than that. The loops over the lines of a file, the
-- attributes of a line and the chunks of a list are bounded by lengths, since each turn takes an
-- element. Texts are lists of code points, with int() and the white space around numbers as on byte
-- strings; the ends of lines and blank packets are those of Unicode where packets are decoded.
--
-- Not modelled: logging and the status file, the size cache of a transaction, sockets, threads
-- and HTTP, the configuration files, the loading of parsers, the decoding of UTF-8 and the
-- integrations; the method check of an integration is a parameter of Check/Run, and the methods
-- of a check are one of Collector/Checks, with the metric of its run time, and the library versions
-- of a check are not kept, but an exception of their reading is. Of the collector, the system checks and old-style
-- checks before its loop are left out: what they put into the payload is an argument of
-- Collector/Run. The templates of docker containers are not filled in, and the cache of
-- Discovery/Refresh is not rebuilt when the store changes.
pub mod Prelude
pub mod Forwarder
pub mod Aggregator
pub mod Packet
pub mod Check
pub mod Config
pub mod NetworkCheck
pub mod Dogstatsd
pub mod TailFile
pub mod Dogstream
pub mod Collector
pub mod Discovery
pub mod Emitter
pub mod Tests
