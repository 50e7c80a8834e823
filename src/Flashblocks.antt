-- ===== src/Flashblocks.antt =====
-- crates/op-rbuilder/src/builders/flashblocks/{config,payload}.rs: cutting a block into
-- flashblocks: how many and when, what each may use, and which transactions each publishes.
pub mod Timing
pub mod Tiling
pub mod Ticks
pub mod Batches
pub mod Targets
pub mod Slices
pub mod Headers
pub mod Outputs
pub mod Sealing
pub mod Sealed
pub mod Building
pub mod Blocks
pub mod Growth
pub mod Told
pub mod Steps
pub mod Telling
pub mod Fueled
pub mod Ending
pub mod Fallback
pub mod Payload
