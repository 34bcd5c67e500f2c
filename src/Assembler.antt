-- ===== src/Assembler.antt =====
-- The assembler, include/rfasm.h.
mod Tests
pub mod Text
pub mod Registers
pub mod Mnemonics
pub mod State
pub mod Encode
pub mod Operations
pub mod Instruction
pub mod Operands
pub mod Line
pub mod Source
pub mod Emission
pub mod Bounds
pub mod Numbers
pub mod Phase
pub mod Fixups
pub mod Endless
