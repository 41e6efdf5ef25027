-- ===== src/Topo/Validate.antt =====
-- `Topology.validate` of src/p4net/topo/topology.py, with src/p4net/topo/_addresses.py.
-- Loops over the two ends of every link run over the list of all ends in that order, and dicts of
-- owners that fill in one loop are one dict over both kinds of keys.
pub mod Problems
pub mod Structure
pub mod Claims
pub mod Addresses
pub mod Whole
pub mod Owners
pub mod Distinct
pub mod Ends
pub mod Services
pub mod Sound
pub mod Built
pub mod Examples
