-- ===== src/Tests.antt =====
-- Concrete runs at which the hypotheses of the theorems hold.
pub mod Examples
pub mod AuthRuns
mod ServiceRuns
mod AnswerRuns
mod SearchRuns
mod WorkspaceRuns
mod KeyRuns
mod JobRuns
mod LoginRuns
