-- ===== src/Examples.antt =====
-- The theorems at concrete inputs.
mod Hostnames
mod Packets
mod Routing
mod Clients
mod Merging
mod Voice
mod Gateway
mod Datagrams
mod Cluster
mod Probes
mod Starting
