-- ===== src/Shared.antt =====
-- The parts of shared/ and the helpers of internal/ that stand on their own.
pub mod UserId
pub mod Pagination
pub mod Checks
