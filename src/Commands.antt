-- ===== src/Commands.antt =====
-- commands/: the command layer over the storage engine.
pub mod Registry
pub mod Handler
