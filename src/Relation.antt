-- ===== src/Relation.antt =====
-- internal/relation: the relations between changes, and the graph of candidates that they make.
pub mod Types
pub mod Order
pub mod Graph
mod Tests
