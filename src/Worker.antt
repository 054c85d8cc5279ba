-- ===== src/Worker.antt =====
-- services/worker/sira_worker: the part of the worker that is modelled.
pub mod Message
pub mod Queue
pub mod Redelivery
pub mod Outbox
pub mod Delivery
pub mod Drained
pub mod Tests
