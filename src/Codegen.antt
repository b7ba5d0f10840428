-- ===== src/Codegen.antt =====
-- internal/codegen/x86_64: from the intermediate representation to assembly.
pub mod Reg
pub mod Ra
pub mod Asm
pub mod Emit
