-- ===== src/Services.antt =====
-- services/agent_service.py: the service between the chat routes and the graph.
pub mod Contents
pub mod Steps
pub mod StreamEvents
pub mod ToolEvents
pub mod ChartEvents
pub mod StepEvents
pub mod Calls
pub mod AgentService
pub mod Named
pub mod Origins
pub mod Returned
pub mod Extracted
