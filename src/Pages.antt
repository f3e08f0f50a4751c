-- ===== src/Pages.antt =====
-- What the pages of web/src/app offer, and when.
pub mod Actions
pub mod Offers
pub mod NetPositions
pub mod Home
pub mod Lists
pub mod Details
pub mod Participant
pub mod DepositAccount
pub mod Shell
pub mod Tabs
pub mod Sitemap
pub mod Links
pub mod Screen
