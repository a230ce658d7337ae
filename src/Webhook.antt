-- ===== src/Webhook.antt =====
-- webhook/: the envelope that the gateway exchanges with a tenant, and the signature on it.
pub mod Sign
pub mod Envelope
