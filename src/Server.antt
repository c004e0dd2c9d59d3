-- ===== src/Server.antt =====
-- rust/openmso/src/server/: the plugin's side of the protocol.
pub mod Args
pub mod Events
pub mod Sender
pub mod Plugin
pub mod Dispatch
pub mod Serve
pub mod Start
pub mod Race
