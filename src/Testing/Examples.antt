-- ===== src/Testing/Examples.antt =====
-- The theorems at concrete inputs, by the part of the program that they are about.
mod Graph
mod Conversation
mod Llm
mod Integrations
mod Nodes
mod Services
mod Api
mod Runtime
