-- ===== src/Config.antt =====
-- internal/config: accounts and their passwords, the settings of OLTs, and what loading a
-- configuration does with what viper has read.
pub mod Password
pub mod Env
pub mod Load
