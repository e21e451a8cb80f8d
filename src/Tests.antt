-- ===== src/Tests.antt =====
-- A small chain that the theorems are tried on, and the tests.
mod Data
mod Records
mod Threads
mod Nodes
mod Services
mod Collisions
mod Connections
mod Extrinsics
mod Blocks
mod Streams
mod Storage
mod Requests
mod Calls
mod Listening
mod Searches
mod Whole
mod Logs
mod Locks
