-- ===== src/Ui.antt =====
-- internal/ui: the root model, the panes, and the parts that compute a layout.
pub mod Sparkline
pub mod Table
pub mod Text
pub mod Theme
pub mod Messages
pub mod Live
pub mod Jobs
pub mod Detail
pub mod Root
pub mod Status
