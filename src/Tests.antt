-- ===== src/Tests.antt =====
-- Runs at concrete inputs: what the definitions compute, and the theorems applied there.
mod Buffers
mod Polls
mod TimerRuns
mod Connections
mod Connectors
mod Servers
mod Loops
mod Threads
mod Sockets
mod Addresses
mod Clients
mod Reactors
mod Examples
mod Latches
mod ThreadObjects
mod Services
mod Owners
mod Acceptors
