-- ===== src/Tests.antt =====
-- Concrete runs of the model: each theorem's hypotheses hold of a state that the program reaches.
mod Data
mod Storage
mod Connections
mod Flows
mod Ids
mod Panel
mod Settings
mod Delivered
mod Providers
mod Sessions
mod Caches
mod Accounts
mod Restored
