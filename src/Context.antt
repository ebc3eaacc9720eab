-- ===== src/Context.antt =====
-- internal/contextinput: the size check of the planning input and the compression of diffs.
pub mod Budget
pub mod Chunk
mod Tests
