-- ===== src/Data.antt =====
-- The preparation of the dataset, src/flowsec/data/: ground truth events and the matching of flows
-- with them.
pub mod Events
pub mod Grouping
pub mod Matching
