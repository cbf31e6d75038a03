-- ===== src/Snmp.antt =====
-- internal/snmp: object identifiers, interface indices, the values of variables, the firmware
-- adapters and the client.
pub mod IfIndex
pub mod Oids
pub mod Values
pub mod Parsers
pub mod Client
pub mod Adapter
