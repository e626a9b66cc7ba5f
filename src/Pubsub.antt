-- ===== src/Pubsub.antt =====
-- crates/axum/src/ws/pubsub: subscriptions and the fan-out of messages.
pub mod Registry
