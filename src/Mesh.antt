-- ===== src/Mesh.antt =====
-- The rider mesh: firmware/main/mesh_*.c.
pub mod Crypto
pub mod Fields
pub mod Proto
pub mod Records
pub mod Floats
pub mod Core
mod Tests
