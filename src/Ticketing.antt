-- ===== src/Ticketing.antt =====
-- ticketing_api/: the database service that keeps events, seats, reservations and payments.
pub mod Schema
pub mod Tables
pub mod Repository
pub mod Service
pub mod Workflows
pub mod Lifecycle
pub mod Payments
pub mod Repeats
