-- ===== src/Handler.antt =====
-- internal/handler: the HTTP handlers. A handler takes the decoded request (`none` where the body
-- does not decode), the state that it reads and writes, and the results of what it calls outside
-- the program; it returns the new state and the response.
pub mod Response
pub mod Users
pub mod Auth
pub mod OltRequests
pub mod Olts
pub mod Search
pub mod Onus
pub mod Control
pub mod Provisioning
pub mod Reports
