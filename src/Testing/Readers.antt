-- ===== src/Testing/Readers.antt =====
-- Readers of dumped models, which show that the assumptions on pydantic can be met. A reader takes
-- exactly the shapes that `model_dump` writes, and then applies the model's own validation.
pub mod Base
pub mod Plans
pub mod Validations
pub mod Decisions
pub mod Contexts
