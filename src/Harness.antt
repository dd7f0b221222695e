-- ===== src/Harness.antt =====
-- src/Harness.cpp: the control thread and the bookkeeping of adds and rungs.
pub mod Api
pub mod Control
pub mod Answers
pub mod Adds
pub mod Rungs
pub mod Spread
