-- ===== src/Exchange.antt =====
-- The data of all processes of a communicator, and what the transposes of a problem do to it.
pub mod Defs
pub mod RoundTrip
pub mod Shapes
pub mod Creation
pub mod Restores
pub mod Blocks
pub mod Sends
pub mod Shares
pub mod Agree
pub mod Places
pub mod Pencils
pub mod Partition
pub mod AlongA
pub mod RowsB
pub mod AlongB
pub mod Through
pub mod Back
pub mod Returns
