-- ===== src/Outcomes.antt =====
-- The outcome lane: api/doug/adjudicate.py classifies merged pull requests, and
-- api/doug/outcome_queue.py claims the jobs and settles the classifications.
mod Rows
pub mod Adjudicate
pub mod Queue
pub mod Repair
pub use Rows.*
