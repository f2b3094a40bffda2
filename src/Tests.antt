-- ===== src/Tests.antt =====
-- Runs of the modelled code on concrete inputs, and the theorems applied to them.
mod Text
mod Data
mod Streams
mod Mounts
mod Commands
mod Revivals
mod Launches
mod Terminals
mod Journals
mod Relays
mod Semaphores
