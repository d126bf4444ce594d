-- ===== src/Examples.antt =====
-- The theorems at concrete inputs.
mod Machines
mod Processors
mod Backends
mod Enclaves
mod Runs
mod Drivers
mod Simds
mod Traces
mod Starts
mod Boots
mod Exits
