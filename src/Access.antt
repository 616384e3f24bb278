-- ===== src/Access.antt =====
-- Access control: src/KAccess.cpp, src/KTable.cpp, include/KChain.h.
pub mod Chain
pub mod Table
pub mod Check
pub mod Action
mod Tests
