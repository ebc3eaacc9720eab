-- ===== src/Interaction.antt =====
-- internal/interaction and internal/pushexec: where a push goes, and how it is called.
pub mod PushTarget
pub mod Push
pub mod Review
mod Safe
mod Tests
