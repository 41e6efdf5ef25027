-- ===== src/Control.antt =====
-- src/p4net/control: values on the wire, the index over a P4Info message, and the client.
pub mod Codec
pub mod Index
pub mod Client
