-- ===== src/Agent.antt =====
-- agent/*: the LangGraph agent, its state, its nodes and its graph.
pub mod ModelRuntime
pub mod State
pub mod World
pub mod Nodes
pub mod Graph
pub mod Runtime
pub mod Studio
