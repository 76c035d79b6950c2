-- ===== src/Lib.antt =====
-- A model of the Noema agent SDK's durable core: canonical events, the event stores, transactional
-- delivery, attention accounts, authorization and consumer checkpoints.
--
-- The parts and where they stand:
-- - Event, Event/Codec: `Event` of src/noema/events.py, its checks and its JSON form, with
--   `parse_datetime` of src/noema/types.py.
-- - Store: src/noema/store.py. Store/Canonical is the abstract log, Store/Interface the protocol
--   `EventStore` with its laws. Store/Memory is `InMemoryEventStore`; Store/Sqlite is
--   `SQLiteEventStore`, by table: Events, Outbox and Inbox; both stores fill the interface.
--   Store/Copy is `copy_events` between any two stores that meet the interface.
-- - Attention: `AttentionAccount` and `AttentionLease` of src/noema/attention.py.
-- - Authority: `ActionIntent`, `AutonomyProfile` and `PolicyEngine` of src/noema/authority.py, and
--   `CapabilitySpec` of src/noema/capabilities.py.
-- - Schemas: `EventSchemaRegistry` of src/noema/events.py.
-- - Checkpoints: src/noema/checkpoints.py.
-- - Delivery: src/noema/delivery.py. Delivery/Broker is `InMemoryBroker`, Delivery/Publisher is
--   `OutboxPublisher.run_once` and Delivery/Consumer `InboxConsumer.process_once`, both over the
--   SQLite store (Store/Sqlite/Service has its methods) and a broker that is a parameter.
-- - Kernel: `NoemaKernel` of src/noema/kernel.py over a store, a situation model and a bus.
-- - Work: src/noema/work. Work/Values and Work/Decode are the helpers of models.py, and there is a
--   module for each of its contracts: Orders, Nodes, Proposals, Graphs, Presences, Manifests,
--   Estimates, Leases, with the events that end a lease or a plan in Terminations. Work/Planning is
--   planning.py, its two loops in Work/Topology. Work/Projection is `WorkProjection` of
--   coordination.py: Facts, Grants, Access and Ends are its handlers and checks, Apply its `apply`
--   and `rebuild`. Work/Frontier is `ReadyFrontier`, with `OrientationBarrier` of
--   src/noema/continuity/reconcile.py, and Work/Matcher is `WorkerMatcher`, whose evaluator of
--   information access is an argument.
-- - Common: lists, dicts, integers, floats, texts and exceptions as results. Tests: concrete inputs.
--
-- An operation takes the state and returns its result and the state after it. The locks of the
-- stores make each operation one step, so interleavings of callers are lists of calls. An exception
-- is a value; the message keeps its constant text. The clock is an argument, in microseconds.
--
-- Python's `str`, `int`, `dict` and the ISO form of a time are parameters (`Builtins`), with one law:
-- the ISO form of an aware time reads back. SQLite is its tables and the statements that the code runs;
-- a raised exception rolls back. JSON columns hold the object and not its text. The texts of times
-- in the tables are compared as the instants that they stand for. Row ids are numbers.
-- The integers of a row are within the 64 bits of an SQLite column: the OverflowError of a greater
-- priority or schema version is not modelled.
--
-- In Authority a float is compared and no more, and Common/Float has its finite values as whole
-- numbers of 2 ^ -1074, the infinities and NaN. In Attention an amount is a finite float, as a whole
-- number of a unit, and the double that an exact result is rounded to is a parameter (`Arithmetic`);
-- a NaN and an overflow are not modelled there. Doubles that are whole numbers of a unit 2 ^ k have
-- exact sums and differences up to 2 ^ 53 units, which is the hypothesis `IsExact`.
--
-- In Work a float is the text that `repr` gives it; its comparisons and products, the digest of a
-- canonical JSON text and `==` of JSON values are parameters (`Platform`), and so is the reading of an
-- information decision from its event (`Governance`).
--
-- `copy_events` loops until a batch is empty; its model has fuel, one unit for a batch and one for
-- the last, empty one, so more fuel than events is enough. The loop of `normalize` runs once for each
-- version between the event's and the current one. The loop over a plan's ready nodes has fuel for
-- one turn a node, and each turn visits a node for the first time.
--
-- Not modelled: the event bus, the situation model, the agent runtime and its
-- workers, the coordinator of work, the projections of memory, intent, information, continuity,
-- endogenous activity, deliberation and reconsideration, the broker and model adapters, telemetry.
pub mod Common
pub mod Event
pub mod Store
pub mod Attention
pub mod Authority
pub mod Schemas
pub mod Checkpoints
pub mod Delivery
pub mod Kernel
pub mod Work
mod Tests
