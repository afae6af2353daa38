-- ===== src/Net.antt =====
-- The peer-to-peer network of net/: what goes over the wire, and the list of known hosts.
pub mod Async
pub mod Messages
pub mod Packet
pub mod Dispatcher
pub mod Subsystem
pub mod Channel
pub mod Hosts
pub mod P2p
pub mod Acceptor
pub mod Outbound
pub mod Protocols
pub mod Version
