-- ===== src/CodeSign.antt =====
-- src/hap/code_sign.rs: fs-verity trees, the code-sign property, and the ZIP archive's plan.
pub mod Sizes
pub mod Merkle
pub mod MerkleLaws
pub mod MerkleTotal
pub mod Verity
pub mod Segments
pub mod Entries
pub mod Archive
pub mod Owner
pub mod Property
pub mod SignInfo
pub mod Placed
pub mod Fits
pub mod Tree
