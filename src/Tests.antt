-- ===== src/Tests.antt =====
-- Runs of the definitions at concrete inputs, by component.
pub mod Hash
pub mod Ledger
pub mod RateLimit
pub mod Scheduler
pub mod ControlLoop
pub mod Gate
pub mod Quarantine
pub mod Propagation
pub mod DurableQueue
pub mod MeshTopology
pub mod Policy
pub mod Responder
pub mod TriadRotation
pub mod Storage
pub mod Learning
