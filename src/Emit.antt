-- ===== src/Emit.antt =====
-- pkg/vm/emit: integers as bytes (`Bigint`), and the instructions that a program writes.
pub mod Bigint
pub mod Instructions
