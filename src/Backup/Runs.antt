-- ===== src/Backup/Runs.antt =====
-- Backup runs: backend/src/modules/backup/backup.service.ts. A run writes to a directory of its own.
-- What the database answers, the upload and the trial restore come to are arguments. Sizes,
-- durations, counts, messages and log lines are left out.
pub mod Guard
pub mod Retention
pub mod Outcome
pub mod Success
use biz_pilot_ai.Prelude.{
  select, ℕ, suc, ◌+◌, ◌-◌, ◌*◌, Bool, true, false, ◌&&◌, ◌==◌, ltb, leb, if◌then◌else◌, List, [],
  ◌∷◌, ◌++◌, length, drop, Option, none, some, find_first, update_many,
}
use biz_pilot_ai.Errors.{plain_fault, Thrown}
use biz_pilot_ai.Effects.{Result, ok, err, M, ◌>>=◌, ◌>>◌, pure, throw, modify, resume}
use biz_pilot_ai.Backup.Topology.{FkEdge, topological_sort, break_cycles}
use biz_pilot_ai.Backup.Artifacts.{
  DiskOperation, Bytes, Directory, Platform, BackupManifest, dump_database,
}
use biz_pilot_ai.Backup.Artifacts.Verify.{Verdict, verify_integrity}

pub data BackupStatus : Type 0 where
  running succeeded failed corrupt : BackupStatus

pub record BackupRun : Type 0 where
  pub id : ℕ
  pub status : BackupStatus
  pub started_at : ℕ
  pub completed_at : Option ℕ
  pub file_path : Option ℕ
  pub encrypted : Bool
  pub s3_uploaded : Bool
  pub restore_verified_ok : Option Bool
  pub pruned_at : Option ℕ

abbrev pub is_running : BackupStatus → Bool
is_running running = true
is_running _ = false

abbrev pub is_succeeded : BackupStatus → Bool
is_succeeded succeeded = true
is_succeeded _ = false

abbrev pub has_run_id : ℕ → BackupRun → Bool
has_run_id id r = r.id == id

abbrev pub abandon : ℕ → BackupRun → BackupRun
abandon now r = record r { status = failed; completed_at = some now }

abbrev pub runs_in_progress : List BackupRun → List BackupRun
runs_in_progress runs = select (λ r. is_running r.status) runs

-- The loop of `guardAgainstConcurrentBackup` over the rows that were found to be running.
unfoldable pub reap : ℕ → ℕ → List BackupRun → M (List BackupRun) (Unit {0})
reap cutoff now [] runs = (ok tt, runs)
reap cutoff now (r ∷ rs) runs = elim (ltb r.started_at cutoff) [
  | true ↦ reap cutoff now rs (update_many (has_run_id r.id) (abandon now) runs)
  | false ↦ (err plain_fault, runs)
]

-- `guardAgainstConcurrentBackup`; the cutoff is a time in milliseconds before now.
unfoldable pub guard_against_concurrent_backup : ℕ → ℕ → M (List BackupRun) (Unit {0})
unfolding reap
guard_against_concurrent_backup stale_minutes now runs =
    reap (now - stale_minutes * 60000) now (runs_in_progress runs) runs

abbrev pub is_live : BackupRun → Bool
is_live r = is_succeeded r.status && elim r.pruned_at [ none ↦ true | some _ ↦ false ]

abbrev pub insert_latest : BackupRun → List BackupRun → List BackupRun
insert_latest r [] = r ∷ []
insert_latest r (s ∷ ss) =
    let rest = insert_latest r ss in if leb s.started_at r.started_at then r ∷ s ∷ ss else s ∷ rest

-- `orderBy: { startedAt: 'desc' }`.
abbrev pub latest_first : List BackupRun → List BackupRun
latest_first [] = []
latest_first (r ∷ rs) = insert_latest r (latest_first rs)

abbrev pub mark_pruned : ℕ → BackupRun → BackupRun
mark_pruned now r = record r { pruned_at = some now }

-- The loop of `cleanupOldBackups`, with the directories that can be deleted: where one cannot, it
-- throws. A failure of the deletion in S3 is only logged.
unfoldable pub prune : (ℕ → Bool) → ℕ → List BackupRun → ℕ → M (List BackupRun) ℕ
prune deletes now [] pruned runs = (ok pruned, runs)
prune deletes now (r ∷ rs) pruned runs = elim r.file_path [
  | none ↦ prune deletes now rs pruned runs
  | some directory ↦ elim (deletes directory) [
    | false ↦ (err plain_fault, runs)
    | true ↦
        prune deletes now rs (suc pruned) (update_many (has_run_id r.id) (mark_pruned now) runs)
  ]
]

unfoldable pub eligible_for_pruning : ℕ → ℕ → List BackupRun → List BackupRun
eligible_for_pruning min_retained cutoff runs =
    select (λ r. ltb r.started_at cutoff) (drop min_retained (latest_first (select is_live runs)))

-- `cleanupOldBackups`.
unfoldable pub cleanup_old_backups : (ℕ → Bool) → ℕ → ℕ → ℕ → M (List BackupRun) ℕ
unfolding prune eligible_for_pruning
cleanup_old_backups deletes retention_days min_retained now runs =
    prune deletes now
      (eligible_for_pruning min_retained (now - retention_days * 24 * 60 * 60 * 1000) runs) 0 runs

-- What surrounds a run: the tables without `_prisma_migrations` and the edges, once the client has
-- connected; the decoded key, if one is set; what the disk permits, for the directory of the run, and
-- which directories can be deleted; the measuring of the directory; the upload to S3, if that is
-- configured; the mismatches of the trial restore.
pub record Surroundings : Type 0 where
  pub schema : Result (List ℕ × List FkEdge)
  pub encryption_key : Option Bytes
  pub permits : DiskOperation → Bool
  pub deletes : ℕ → Bool
  pub size : Result (Unit {0})
  pub upload : Option (Result (Unit {0}))
  pub restore : Result (List ℕ)
  pub stale_minutes : ℕ
  pub retention_days : ℕ
  pub min_retained : ℕ

-- `decodeEncryptionKey`: a key of 32 bytes.
unfoldable pub checked_key : Option Bytes → Result (Option Bytes)
checked_key none = ok none
checked_key (some key) = if length key == 32 then ok (some key) else err plain_fault

-- The order in which the tables are dumped, and the edges left to the fix-up.
unfoldable pub backup_order : List ℕ → List FkEdge → Result (List ℕ × List FkEdge)
unfolding break_cycles topological_sort
backup_order tables edges = elim (break_cycles tables edges) [
  | err e ↦ err e
  | ok (kept, broken) ↦ elim (topological_sort tables kept) [
    | err e ↦ err e
    | ok order ↦ ok (order, broken)
  ]
]

abbrev pub empty_directory : (DiskOperation → Bool) → Directory
empty_directory permits = record { files = λ n. none; drawn = 0; permits = permits }

-- What the files of a run come to: it throws, or the check refuses or accepts them.
unfoldable pub make_artifact : {Row : Type 0} → Platform Row → Surroundings → ℕ → ℕ → Result Verdict
unfolding backup_order checked_key dump_database verify_integrity
make_artifact p around run_id now = elim around.schema [
  | err e ↦ err e
  | ok (tables, edges) ↦ elim (backup_order tables edges) [
    | err e ↦ err e
    | ok (order, broken) ↦ elim (checked_key around.encryption_key) [
      | err e ↦ err e
      | ok key ↦
          (resume (dump_database p run_id order broken key now (empty_directory around.permits))
            (λ dumped. verify_integrity p)).0
    ]
  ]
]

abbrev pub start_run : ℕ → ℕ → BackupRun
start_run id now = record {
  id = id;
  status = running;
  started_at = now;
  completed_at = none;
  file_path = none;
  encrypted = false;
  s3_uploaded = false;
  restore_verified_ok = none;
  pruned_at = none;
}

abbrev pub succeed : Bool → ℕ → BackupRun → BackupRun
succeed encrypted now r = record r {
  status = succeeded;
  file_path = some r.id;
  completed_at = some now;
  encrypted = encrypted;
}

abbrev pub mark_corrupt : ℕ → BackupRun → BackupRun
mark_corrupt now r = record r { status = corrupt; completed_at = some now }

abbrev pub note_upload : Option (Result (Unit {0})) → BackupRun → BackupRun
note_upload none r = r
note_upload (some (ok _)) r = record r { s3_uploaded = true }
note_upload (some (err _)) r = record r { s3_uploaded = false }

-- `runAutomatedRestoreVerification`.
abbrev pub note_restore : Result (List ℕ) → BackupRun → BackupRun
note_restore (ok []) r = record r { restore_verified_ok = some true }
note_restore (ok (m ∷ ms)) r = record r { restore_verified_ok = some false }
note_restore (err _) r = record r { restore_verified_ok = some false }

abbrev pub finish_run : Surroundings → Bool → ℕ → BackupRun → BackupRun
finish_run around encrypted now r =
    note_restore around.restore (note_upload around.upload (succeed encrypted now r))

-- The `catch` of `runDatabaseBackup`: a run that still is running has failed.
abbrev pub fail_if_running : ℕ → BackupRun → BackupRun
fail_if_running now r = if is_running r.status then abandon now r else r

-- The end of the `try`, where a cleanup that throws goes to the `catch`.
abbrev pub after_cleanup : ℕ → ℕ → Result ℕ × List BackupRun → Result (Unit {0}) × List BackupRun
after_cleanup id now (ok _, runs) = (ok tt, runs)
after_cleanup id now (err e, runs) = (err e, update_many (has_run_id id) (fail_if_running now) runs)

-- What is written of the run in the `try` and the `catch`.
unfoldable pub settle_run : Surroundings → ℕ → Result Verdict → ℕ → M (List BackupRun) (Unit {0})
unfolding cleanup_old_backups
settle_run around id (err e) now runs =
    (err e, update_many (has_run_id id) (fail_if_running now) runs)
settle_run around id (ok verdict) now runs = elim verdict.is_ok [
  | false ↦ (
    err plain_fault,
    update_many (has_run_id id) (fail_if_running now)
        (update_many (has_run_id id) (mark_corrupt now) runs),
  )
  | true ↦ elim around.size [
    | err e ↦ (err e, update_many (has_run_id id) (fail_if_running now) runs)
    | ok _ ↦ after_cleanup id now (
        cleanup_old_backups around.deletes around.retention_days around.min_retained now
          (update_many (has_run_id id) (finish_run around verdict.manifest.encrypted now) runs))
  ]
]

-- `runDatabaseBackup`; the identifier is a new one.
unfoldable pub run_database_backup :
    {Row : Type 0} → Platform Row → Surroundings → ℕ → ℕ → M (List BackupRun) (Unit {0})
unfolding guard_against_concurrent_backup make_artifact settle_run
run_database_backup p around id now =
    guard_against_concurrent_backup around.stale_minutes now
    >> (modify (λ runs. runs ++ start_run id now ∷ [])
        >> settle_run around id (make_artifact p around id now) now)
