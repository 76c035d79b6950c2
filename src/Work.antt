-- ===== src/Work.antt =====
-- src/noema/work: the contracts of durable work coordination (models.py), the validation of plans
-- (planning.py), and the projection of the event history (coordination.py).
-- A float is the text that `repr` gives it, and its arithmetic is a parameter, as are the digest
-- of a canonical JSON text and what an event's codec takes from Python (`Platform`).
pub mod Values
pub mod Decode
pub mod Readings
pub mod LeaseEvents
pub mod Orders
pub mod Nodes
pub mod Proposals
pub mod Graphs
pub mod Presences
pub mod Manifests
pub mod Estimates
pub mod Leases
pub mod Terminations
pub mod Topology
pub mod Planning
pub mod Projection
pub mod Frontier
pub mod Matcher
