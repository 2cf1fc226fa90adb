-- ===== src/Xmq.antt =====
-- pkg/xmq/rabbitmq: the publisher's confirmations and the consumer's handling of a message.
pub mod Pending
pub mod Confirm
pub mod Consumer
mod Tests
