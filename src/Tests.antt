-- ===== src/Tests.antt =====
-- Tests on concrete inputs, and the theorems applied to them.
mod Service
mod Record
mod Ledger
mod Models
mod Policy
mod Observation
mod Transport
mod Software
mod Config
mod Http
mod Events
mod Directory
mod Legacy
mod Agent
mod Streams
mod Resources
