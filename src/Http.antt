-- ===== src/Http.antt =====
-- vnext/api.py: the credentials of a request, the routes that admit operations or read them, and
-- the problem responses.
pub mod Auth
pub mod Access
pub mod Accounts
pub mod Routes
pub mod Guarded
pub mod Frames
pub mod Stream
pub mod Problems
pub mod Named
pub mod Resources
pub mod Advertised
