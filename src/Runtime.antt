-- ===== src/Runtime.antt =====
-- src/p4net/runtime: the command lines of traffic control and of the switch process.
pub mod Tc
pub mod Bmv2
