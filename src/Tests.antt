-- ===== src/Tests.antt =====
-- The theorems on concrete inputs.
mod Samples
mod Logs
mod Policies
mod Maps
mod Recoveries
mod Services
mod Compactions
mod Sessions
mod Replicas
