-- ===== src/Canonical.antt =====
-- The package canonical: screen costs, and the event and the response that the parts exchange.
pub mod Encoding
pub mod Event
