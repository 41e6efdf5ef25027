-- ===== src/Topo.antt =====
-- src/p4net/topo and src/p4net/_ifname.py: descriptions of hosts, switches and links, and the
-- builder that collects them.
pub mod Names
pub mod Nodes
pub mod Link
pub mod Topology
pub mod Validate
pub mod Render
pub mod Payload
pub mod Restore
