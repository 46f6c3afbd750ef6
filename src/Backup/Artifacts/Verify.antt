-- ===== src/Backup/Artifacts/Verify.antt =====
-- `verifyBackupIntegrity` of backend/src/modules/backup/backup-core.ts.
use biz_pilot_ai.Prelude.{ℕ, Bool, ◌==◌, if◌then◌else◌, List, [], ◌∷◌, length, Option, none, some}
use biz_pilot_ai.Errors.{plain_fault}
use biz_pilot_ai.Effects.{M, ◌>>=◌, pure, throw, get}
use biz_pilot_ai.Backup.Artifacts.{
  FileName, manifest_json, BackupManifest, Directory, Platform, Entries, entry_of, read_file,
}

-- What `verifyBackupIntegrity` reports.
pub data Problem : Type 0 where
  missing_entry : ℕ → Problem
  unreadable checksum_mismatch : FileName → Problem

pub record Verdict : Type 0 where
  pub is_ok : Bool
  pub manifest : BackupManifest
  pub problems : List Problem

module _ {Row : Type 0} (p : Platform Row) where
  -- `verifyBackupIntegrity`: what is wrong with the entry of a table, if anything.
  unfoldable pub table_problem : Directory → Entries → ℕ → Option Problem
  table_problem d tables table = elim (entry_of table tables) [
    | none ↦ some (missing_entry table)
    | some entry ↦ elim (d.files entry.file_name) [
      | none ↦ some (unreadable entry.file_name)
      | some content ↦
          if p.sha256 content == entry.checksum
          then none
          else some (checksum_mismatch entry.file_name)
    ]
  ]

  unfoldable pub problems_of : Directory → Entries → List ℕ → List Problem
  unfolding table_problem
  problems_of d tables [] = []
  problems_of d tables (t ∷ ts) = elim (table_problem d tables t) [
    | none ↦ problems_of d tables ts
    | some problem ↦ problem ∷ problems_of d tables ts
  ]

  unfoldable pub read_manifest : M Directory BackupManifest
  unfolding read_file
  read_manifest = read_file manifest_json >>= λ raw. elim (p.parse_manifest (p.decode raw)) [
    | none ↦ throw plain_fault
    | some m ↦ pure m
  ]

  unfoldable pub verify_integrity : M Directory Verdict
  unfolding read_manifest problems_of
  verify_integrity = read_manifest >>= λ manifest. get >>= λ d.
      let problems = problems_of d manifest.tables manifest.order in
      pure (record { is_ok = length problems == 0; manifest = manifest; problems = problems })
