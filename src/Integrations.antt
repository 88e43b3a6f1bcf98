-- ===== src/Integrations.antt =====
-- integrations/business/*.py: the Wren context client and the SQL execution client.
pub mod WrenTypes
pub mod SqlExecutor
pub mod Wren
