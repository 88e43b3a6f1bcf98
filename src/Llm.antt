-- ===== src/Llm.antt =====
-- llm/*.py: the configuration of the language model.
pub mod Models
pub mod ConfigResolver
pub mod ChatModels
