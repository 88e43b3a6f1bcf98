-- ===== src/Persistence.antt =====
-- persistence/postgres/*.py: adapters of the database. The conversation tables are in Conversation.
pub mod LlmModels
