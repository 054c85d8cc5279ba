-- ===== src/Stack.antt =====
-- python/stackfile: the company's stack as a versioned graph, and patches of it.
pub mod Models
pub mod Graph
pub mod Patch
pub mod Tests
