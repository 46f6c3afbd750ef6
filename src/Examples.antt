-- ===== src/Examples.antt =====
-- Concrete runs of the modelled code, by component.
mod Jobs
mod Runs
mod Accounts
mod Payments
mod Codec
mod Backups
mod Schedules
mod Teams
