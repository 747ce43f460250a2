-- ===== src/Messaging.antt =====
-- internal/messaging/consumers: order_inventory_op_succeeded.go and order_inventory_op_failed.go. One
-- message is decoded, handled and deleted from the queue.
pub mod Decoding
pub mod Consumers
pub mod Acknowledged
pub mod CustomerDeleted
pub mod CustomerGone
