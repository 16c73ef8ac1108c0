-- ===== src/Routing.antt =====
-- Routing: the rules that decide where traffic goes, their validation, and the routes they become.
pub mod Rules
pub mod Policy
pub mod Routes
