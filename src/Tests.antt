-- ===== src/Tests.antt =====
-- The theorems at concrete inputs, and small runs of the model.
pub mod Lists
pub mod Pools
pub mod Texts
pub mod Rules
pub mod Restarts
pub mod Base
pub mod Daemons
pub mod Clients
pub mod Controls
pub mod Histories
pub mod Settings
