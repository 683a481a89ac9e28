-- ===== src/Examples.antt =====
-- Runs of the operations at concrete states and records, and the theorems at such inputs.
mod Recency
mod Frequency
mod Records
mod Rows
mod AgedRows
mod Lines
mod Queries
mod Openings
mod Purges
mod Connections
mod Settings
mod Deletions
mod Sockets
