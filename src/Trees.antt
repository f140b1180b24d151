-- ===== src/Trees.antt =====
-- messaging/trees: one conversation tree, its queue and its claims.
pub mod Queue
pub mod Node
pub mod Graph
pub mod Transitions
pub mod Runtime
pub mod Repository
pub mod Tests
