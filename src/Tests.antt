-- ===== src/Tests.antt =====
-- Concrete inputs at which the theorems of the library apply.
mod Fixtures
mod Stores
mod Outbox
mod Inbox
mod Agents
mod Delivery
mod Schemas
mod Kernel
mod Plans
mod Work
mod Projection
mod Matcher
