-- ===== src/Core/Conditions.antt =====
-- src/core/if_block.rs: rules as lists of conditions, with jumps, and how they are evaluated.
--
-- A regular expression stands for the function that its `is_match` is, and a lookup list for its
-- `contains`, which gives nothing when the list cannot be asked.
pub mod Eval
pub mod Mask
pub mod Prefix
pub mod Compile
pub mod Emit
pub mod Layout
pub mod Meaning
