-- ===== src/Delivery.antt =====
-- src/noema/delivery.py: the parts that move events between a store and a broker.
pub mod Broker
pub mod Publisher
pub mod Consumer
