-- ===== src/Examples.antt =====
-- The theorems at concrete inputs of the program.
mod Texts
mod Addresses
mod Policies
mod Connections
mod Host
mod Routes
mod Messages
