-- ===== src/Examples.antt =====
-- The theorems at concrete inputs, and the inputs that they share.
pub mod Feeds
pub mod Browsing
pub mod Posts
pub mod Servers
pub mod Handsets
pub mod Shared
pub mod Gateways
pub mod Configs
pub mod Codec
pub mod Data
pub mod Screens
pub mod Requests
pub mod Routes
pub mod Sessions
pub mod Dialogues
pub mod Apps
