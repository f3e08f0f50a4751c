-- ===== src/Tests.antt =====
-- The models at concrete inputs.
pub mod Instances
pub mod Book
pub mod Client
pub mod Hooks
pub mod Forms
pub mod Dialogs
pub mod Links
pub mod Pages
pub mod Proxy
pub mod Tables
pub mod Register
pub mod Clearing
