-- ===== src/Aggregator.antt =====
-- aggregator.py: the classes of metrics and the aggregators.
pub mod Point
pub mod Metric
pub mod Histogram
pub mod Flush
pub mod Class
pub mod Base
pub mod MagicTags
pub mod Metrics
pub mod Calls
pub mod Buckets
pub mod Cutoff
pub mod Contexts
pub mod Flushed
pub mod Histories
pub mod Totals
pub mod Quantiles
