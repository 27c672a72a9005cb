-- ===== src/Tests.antt =====
-- Examples: the theorems of the development at concrete inputs.
mod Ring
mod Limits
mod Values
mod Texts
mod Sink
mod Calls
mod Clock
mod Emit
mod Queues
mod Threads
mod Forward
mod Bench
