-- ===== src/PointsTo.antt =====
-- src/PointsTo/PointsTo.cpp: what is known of each symbol, and the check of the points-to graph.
pub mod States
pub mod Trace
pub mod Text
