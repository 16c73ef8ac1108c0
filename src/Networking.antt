-- ===== src/Networking.antt =====
-- Networking: IP addresses, ranges, endpoints and host names.
pub mod Literal
pub mod Address
pub mod Range
pub mod Endpoint
pub mod Statistics
