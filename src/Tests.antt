-- ===== src/Tests.antt =====
-- Runs of the models on small inputs, and each theorem at one of them.
mod Tasks
mod Operations
mod Sessions
mod Pool
mod Router
mod Dates
mod Handlers
mod Access
mod Tools
mod Searches
mod Worker
mod Dsc
mod Imports
mod Addresses
