-- ===== src/Workflow.antt =====
-- The workflow (src/infrastructure/orchestration/langgraph): its state, its routing functions and
-- its graph.
pub mod State
pub mod Routing
pub mod Spec
pub mod Run
