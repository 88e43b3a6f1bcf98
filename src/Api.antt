-- ===== src/Api.antt =====
-- api/*.py: errors as HTTP errors, server-sent events, and the routes.
pub mod Errors
pub mod Streaming
pub mod Chat
pub mod Conversations
