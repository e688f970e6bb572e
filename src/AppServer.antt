-- ===== src/AppServer.antt =====
-- app_server/: parts of the orchestration server.
pub mod OrchestrationLog
pub mod Clients
pub mod Orchestrator
pub mod Reconciler
pub mod RespClient
pub mod DbClient
pub mod Services
pub mod Sales
pub mod Refusals
