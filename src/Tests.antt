-- ===== src/Tests.antt =====
-- The theorems at concrete inputs.
mod Seats
mod Queues
mod Keys
mod Reservations
mod Servers
mod Outcomes
mod Shows
mod Sales
mod Orchestration
mod Wire
mod Http
