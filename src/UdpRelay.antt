-- ===== src/UdpRelay.antt =====
-- internal/udprelay: datagrams between clients and backends, with a session for each client address.
pub mod Resolver
pub mod Sessions
pub mod Relay
pub mod Steps
pub mod Expiry
pub mod Forwarding
