-- ===== src/Samples.antt =====
-- Runs of the definitions on concrete inputs, and the theorems at such inputs.
mod CacheRuns
mod StatsRuns
mod TagRuns
mod JobRuns
mod IndexRuns
mod GlobRuns
mod QueryRuns
mod FrameRuns
mod SpaceRuns
mod ReaderRuns
mod HubRuns
mod ConfigRuns
mod ExportRuns
mod TableRuns
mod ScreenRuns
mod StartRuns
