-- ===== src/Persistence.antt =====
-- infra/persistence: how an order and its items become rows of the database, and rows become an
-- order again.
pub mod Model
pub mod RoundTrip
