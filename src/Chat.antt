-- ===== src/Chat.antt =====
-- backend/chat_service.py: the text of acknowledgments and titles, and the streamed chat.
pub mod Types
pub mod Rows
pub mod Persist
pub mod Transcript
pub mod Committing
pub mod Prompt
pub mod Stream
pub mod Protocol
pub mod Claims
mod Tests
