-- ===== src/Ranking.antt =====
-- gateway/ranking.py: outcome counters and the ranking policies.
pub mod Metrics
pub mod Policy
