-- ===== src/Agent.antt =====
-- asl_agent.py: the old routes, and the audit log.
pub mod Routes
pub mod Aliases
pub mod Audit
pub mod Entries
pub mod Newlines
pub mod RoundTrip
pub mod Lifespan
pub mod Stream
pub mod Delivered
pub mod Health
pub mod Features
pub mod Fields
