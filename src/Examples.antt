-- ===== src/Examples.antt =====
-- Tests: runs of the definitions on concrete data, and the theorems applied to it.
mod Data
mod Dispatches
mod Joins
mod Slots
mod Decisions
mod Faults
mod Graphs
mod Parking
mod Stream
mod Views
