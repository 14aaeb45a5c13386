-- ===== src/Sitelink.antt =====
-- src/cron-job/sitelink-stock-sync: the stock of the third-party sites.
pub mod Groups
pub mod Units
pub mod Sync
pub mod Conserves
pub mod Archives
pub mod SpaceTypes
