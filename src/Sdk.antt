-- ===== src/Sdk.antt =====
-- The Go SDK, package openussd (sdk/go).
pub mod Bisect
pub mod Truncate
pub mod Shrink
pub mod Gsm
pub mod Menu
pub mod Paginate
pub mod I18n
pub mod App
pub mod Handler
