-- ===== src/Conversation.antt =====
-- conversation/*.py: the stored conversations, the context that is loaded of them, and summaries.
pub mod Tables
pub mod Repository
pub mod ContextLoader
pub mod Summary
