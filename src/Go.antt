-- ===== src/Go.antt =====
-- The parts of Go's standard library that the gateway calls, over byte lists.
pub mod Text
pub mod Utf8
pub mod Ipv4
pub mod Ipv6
pub mod Netip
pub mod Conv
pub mod HostPort
pub mod IpText
pub mod Hex
