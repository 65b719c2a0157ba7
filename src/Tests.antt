-- ===== src/Tests.antt =====
-- Tests and examples: runs of the operations on concrete inputs, and the theorems applied to them.
mod Versions
mod Deploys
mod Patches
mod Limits
mod Strings
mod Crons
mod Refreshes
mod Gates
mod Clients
mod Jsons
