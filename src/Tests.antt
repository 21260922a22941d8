-- ===== src/Tests.antt =====
-- Concrete runs.
pub mod Memory
pub mod Lawful
pub mod World
pub mod CardRuns
pub mod MoreRuns
pub mod ServiceRuns
pub mod FilterRuns
pub mod FrontendRuns
pub mod ApiRuns
pub mod ScriptRuns
pub mod EditorRuns
