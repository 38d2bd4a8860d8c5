-- ===== src/Delivery.antt =====
-- internal/delivery/engine.go: delivery with retries, the dead letter queue, and recovery.
pub mod Destination
pub mod Event
pub mod Diff
pub mod Recovery
