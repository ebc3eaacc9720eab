-- ===== src/Updatecheck.antt =====
-- internal/updatecheck: whether a release is newer than the running version.
pub mod Version
mod Order
mod Tests
