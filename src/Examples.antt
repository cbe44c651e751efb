-- ===== src/Examples.antt =====
-- Concrete runs of the modelled code, at which the theorems apply.
mod Base
mod Duplicates
mod Attempts
mod Histories
mod Approvals
mod Gates
mod Store
mod Vaults
mod Snapshots
mod Campaigns
mod Engine
mod Audits
mod Signing
mod Records
mod Tracking
mod Channels
mod Names
