-- ===== src/Tests.antt =====
-- The code at concrete inputs.
mod Samples
mod Buffers
mod Messages
mod Queues
mod Patterns
mod Endpoints
mod Sockets
mod Pollers
mod Schedules
mod Ends
mod Loops
mod Trees
mod Pools
mod Runners
