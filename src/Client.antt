-- ===== src/Client.antt =====
-- The browser's stores, src/client/src/stores.
pub mod Tabs
pub mod Series
pub mod Messages
pub mod Entries
pub mod Notifications
pub mod Ui
pub mod ControlSocket
pub mod Configs
pub mod Form
pub mod Import
pub mod Composer
pub mod Palette
pub mod FeedPanel
pub mod PerfPanel
pub mod NetworkPanel
pub mod StatsPanel
pub mod WorkspacePanel
pub mod LogPanel
pub mod Workspaces
