-- ===== src/Tests.antt =====
-- Runs of the definitions on small inputs, and an instance of each theorem that has conditions.
mod Escaping
mod Bridging
mod Interleaved
mod Processing
mod Queueing
mod Collecting
mod Cycling
mod Machines
mod Reporting
mod Pressure
mod Publishing
mod Following
mod Watching
mod Losing
mod Delivering
mod Filling
