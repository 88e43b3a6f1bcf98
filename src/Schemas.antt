-- ===== src/Schemas.antt =====
-- agent/schemas/*.py: the pydantic models that the nodes of the graph exchange.
-- Each model has a record, the constraints of its `Field`s, its `model_validator`, its constructor
-- and its `model_dump`.
pub mod Model
pub mod SqlValidation
pub mod SqlExecution
pub mod SqlPlan
pub mod Intent
pub mod Chart
