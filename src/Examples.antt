-- ===== src/Examples.antt =====
-- Runs of the theorems at concrete inputs.
mod Data
mod Users
mod Auth
mod Snmp
mod Services
mod Olts
mod Locks
mod System
mod Runs
mod Onus
mod Pollers
mod Index
mod Reboots
