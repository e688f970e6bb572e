-- ===== src/Server.antt =====
-- server/: the worker that performs the commands, and the loop of a connection.
pub mod Executor
pub mod Connection
