-- ===== src/Builtins.antt =====
-- What the program uses of Python's own integers and `bytes`, and of the standard `ipaddress`
-- and `pathlib` modules: their documented behaviour, written as functions. None of it is code of
-- the repository.
pub mod Bytes
pub mod IntText
pub mod Address
pub mod Interface
pub mod Lines
pub mod Quantity
