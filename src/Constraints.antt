-- ===== src/Constraints.antt =====
-- evaluation/constraints.py: the mechanical constraints of a prompt, their validation, and the one
-- repair of an answer that fails them.
pub mod Types
pub mod Words
pub mod Prompt
pub mod Validation
pub mod Guidance
pub mod Repair
pub mod Retries
pub mod Tests
