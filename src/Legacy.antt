-- ===== src/Legacy.antt =====
-- The old routes' side of the program: `AMIClient` of ami_client.py, and asl_agent.py.
pub mod Client
pub mod Output
pub mod Rejection
pub mod Control
pub mod Durations
pub mod Reports
