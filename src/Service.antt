-- ===== src/Service.antt =====
-- internal/service
pub mod Activity
pub mod Templates
pub mod Manager
pub mod Provisioning
pub mod Onus
pub mod Indexer
pub mod System
pub mod Telnet
