-- ===== src/Tests.antt =====
-- The theorems at concrete inputs, and runs of the definitions.
pub mod Network
pub mod Playing
pub mod Queue
pub mod Receiver
pub mod Serving
pub mod Sockets
pub mod Links
pub mod Speakers
pub mod Stream
pub mod Hosts
pub mod Pipes
pub mod Rooms
pub mod Reports
pub mod Begun
pub mod Datagrams
