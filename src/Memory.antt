-- ===== src/Memory.antt =====
-- backend/memory.py and the memory half of backend/repositories.py and backend/models.py: slots of
-- remembered facts with their revisions, the staging of changes, their optimistic application, and
-- the bounded retrieval of what a chat may show to the model.
pub mod Types
pub mod Tables
pub mod Apply
pub mod Stage
pub mod Retrieve
mod Tests
pub mod Rows
mod Outcome
pub mod Consistency
pub mod Keeps
pub mod Staging
pub mod Forgetting
