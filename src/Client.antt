-- ===== src/Client.antt =====
-- internal/clientip: the client's address under the setting of trusted proxies.
pub mod Address
pub mod Policy
pub mod Forwarded
pub mod Entries
pub mod Masks
pub mod Trust
