-- ===== src/Saga.antt =====
-- application/saga/saga_orchestrator.go: the inventory saga of a service order.
pub mod Values
pub mod Recording
pub mod Orchestrator
pub mod Effects
pub mod Settling
pub mod Starting
pub mod Resent
pub mod Recovery
pub mod Completing
pub mod Success
