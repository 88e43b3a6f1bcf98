-- ===== src/Agent/Nodes.antt =====
-- agent/nodes/*.py: one module for each node of the graph.
pub mod Inputs
pub mod Route
pub mod Summarize
pub mod Intent
pub mod WrenContext
pub mod SqlPlan
pub mod SqlValidate
pub mod SqlExecute
pub mod ChartPlan
pub mod ChartSpec
pub mod Clarify
pub mod Respond
pub mod Tools
