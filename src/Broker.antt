-- ===== src/Broker.antt =====
-- internal/broker: publishing with confirms, retries and the consumer's workers.
pub mod Retry
pub mod Consumer
pub mod Publisher
pub mod Client
