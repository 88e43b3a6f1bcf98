-- ===== src/Testing.antt =====
-- Strict readers in the place of pydantic's `model_validate`, the components that the examples use,
-- and the examples: each applies a theorem at a concrete input.
mod Readers
mod Sorting
mod Fixtures
mod Examples
