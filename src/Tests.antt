-- ===== src/Tests.antt =====
-- Runs of the model at concrete inputs.
mod Data
mod Village
mod Ledger
mod Model
mod Run
mod Server
mod Migration
mod Client
mod Storage
mod Startup
