-- ===== src/Tests.antt =====
-- The theorems at concrete inputs, and runs of the definitions.
mod Flags
mod Nodes
mod Loop
mod Chain
mod Export
mod Unbondings
mod Apps
mod Whole
mod Refined
mod Copies
