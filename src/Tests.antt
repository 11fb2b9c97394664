-- ===== src/Tests.antt =====
-- Runs at concrete inputs, and the theorems at inputs that meet their hypotheses.
mod Memory
mod StoreRuns
mod JobRuns
mod RunnerRuns
mod RequestRuns
mod ModelRuns
mod OutputRuns
mod StreamRuns
mod ResponseRuns
mod ListingRuns
mod EngineRuns
mod ResponseStreamRuns
mod ConversationRuns
