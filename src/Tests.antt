-- ===== src/Tests.antt =====
-- The theorems at concrete inputs, with the code run on them.
mod Sessions
mod Logs
mod Joins
mod Networks
mod Shares
mod Figures
mod Sockets
mod Protocols
mod PerfTests
mod Stores
mod Topics
mod Control
mod Charts
mod Forms
mod Joining
