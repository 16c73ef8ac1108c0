-- ===== src/Services.antt =====
-- The service and its protocol, Services/.
pub mod Methods
pub mod Protocol
pub mod Framing
pub mod Hello
pub mod Server
