-- ===== src/Vm.antt =====
-- The bytecode of the virtual machine: its format, the writers, the verifier that runs before any
-- of it is executed, and the way the interpreter reads it (include/lumiere/interpreter/vm and
-- src/interpreter/vm).
pub mod Opcode
pub mod Bytecode
pub mod Writer
pub mod Verifier
pub mod Fetch
mod Tests
