-- ===== src/Backup.antt =====
-- backend/src/modules/backup: the insertion order of a restore, the artifacts on disk, and the runs.
pub mod Topology
pub mod Artifacts
pub mod Runs
