-- ===== src/Policy.antt =====
-- The pages that edit what a group resolves.
pub mod Editor
pub mod Domain
pub mod Categories
pub mod Duplicate
pub mod BlockPage
