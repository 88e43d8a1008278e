-- ===== src/Generator.antt =====
-- runtime/generator.py: the orchestration of a model provider, the tools and the repair of answers.
pub mod Types
pub mod Candidate
pub mod Loop
pub mod Reply
mod Tests
