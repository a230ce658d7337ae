-- ===== src/Httpx.antt =====
-- gateway/internal/httpx/: the gateway's HTTP surface.
pub mod Inbound
